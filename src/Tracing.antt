-- ===== src/Tracing.antt =====
-- `Span` of src/utils/tracing.h: its numbers from the counter, its attributes, and the line that its
-- destructor logs. Times are in microseconds; `decimal` stands for the formatting of numbers.
pub mod Tree
use Prim.Native.String.{String, ◌++◌ as ◌<>◌}
use forge_lock_free.Base.{ℕ, ◌+◌, ◌-◌, ◌%◌, ◌^◌, Bool, true, false, List, [], ◌∷◌, if◌then◌else◌}
use forge_lock_free.CostTracker.{alter}

pub record SpanContext : Type 0 where
  pub trace_id : ℕ
  pub span_id : ℕ
  pub parent_span_id : ℕ

-- The attributes in the order in which the loop of the destructor meets them.
pub record Span : Type 0 where
  pub ctx : SpanContext
  pub operation : String
  pub start : ℕ
  pub attributes : List (String × String)
  pub ok : Bool
  pub status_message : String
  pub moved : Bool

-- The constructor, with `span_id_counter` before and after.
unfoldable pub make : ℕ → String → ℕ → ℕ → Span × ℕ
make trace_id operation now counter = (
  record {
    ctx = record { trace_id = trace_id; span_id = counter; parent_span_id = 0 };
    operation = operation;
    start = now;
    attributes = [];
    ok = true;
    status_message = "";
    moved = false;
  },
  (counter + 1) % 2 ^ 64,
)

unfoldable pub child : Span → String → ℕ → ℕ → Span × ℕ
unfolding make
child s operation now counter =
    let r = make s.ctx.trace_id operation now counter in
    (record r.0 { ctx = record r.0.ctx { parent_span_id = s.ctx.span_id } }, r.1)

-- The move constructor: the new span, and the old one, with what the library's moves leave of its texts
-- and attributes.
unfoldable pub move : (left : Span) → Span → Span × Span
move left s = (
  record s { moved = false },
  record s {
    operation = left.operation;
    attributes = left.attributes;
    status_message = left.status_message;
    moved = true;
  },
)

unfoldable pub set_attribute : String → String → Span → Span
set_attribute key value s = record s { attributes = alter value (λ v. value) key s.attributes }

unfoldable pub set_status : Bool → String → Span → Span
set_status ok message s = record s { ok = ok; status_message = message }

-- One attribute, as the line has it.
abbrev pub pair : String × String → String
pair (k, v) = "\"" <> k <> "\":\"" <> v <> "\""

unfoldable pub more_attrs : List (String × String) → String
more_attrs [] = ""
more_attrs (a ∷ rest) = "," <> pair a <> more_attrs rest

unfoldable pub attrs : List (String × String) → String
unfolding more_attrs
attrs [] = "{}"
attrs (a ∷ rest) = "{" <> pair a <> more_attrs rest <> "}"

-- What the destructor logs, of any span.
unfoldable pub line : (decimal : ℕ → String) → (now : ℕ) → Span → String
unfolding attrs
line decimal now s =
    "{\"trace_id\":"
    <> decimal s.ctx.trace_id
    <> ",\"span_id\":"
    <> decimal s.ctx.span_id
    <> ",\"parent\":"
    <> decimal s.ctx.parent_span_id
    <> ",\"op\":\""
    <> s.operation
    <> "\",\"dur_us\":"
    <> decimal (now - s.start)
    <> ",\"ok\":"
    <> (if s.ok then "true" else "false")
    <> ",\"status\":\""
    <> s.status_message
    <> "\",\"attrs\":"
    <> attrs s.attributes
    <> "}"

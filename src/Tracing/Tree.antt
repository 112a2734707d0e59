-- ===== src/Tracing/Tree.antt =====
-- The tree of the spans of one trace.
use Prim.Native.String.{String}
use forge_lock_free.Base.{ℕ, ◌+◌, ◌<◌, ◌≡◌, ◌^◌, ◌%◌, ap, refl, List, [], ◌∷◌, map, length, arith}
use native.Mathlib.Nat.{mod-eq_of_lt}
use forge_lock_free.Tracing.{Span, SpanContext, make, child}

-- Children made one after another, with the counter behind them.
abbrev pub children : Span → ℕ → List String → ℕ → List Span × ℕ
children s now [] counter = ([], counter)
children s now (operation ∷ operations) counter =
    let r = child s operation now counter in
    let rest = children s now operations r.1 in (r.0 ∷ rest.0, rest.1)

-- Contexts numbered from the counter on, below one span.
abbrev pub below : Span → ℕ → List String → List SpanContext
below s n [] = []
below s n (operation ∷ operations) =
    record { trace_id = s.ctx.trace_id; span_id = n; parent_span_id = s.ctx.span_id }
    ∷ below s (n + 1) operations

-- The children of a span are in its trace, have it for their parent, and have numbers of their own, one
-- after another, as long as the counter does not wrap.
pub children-below :
    (s : Span) (now : ℕ) (operations : List String) (counter : ℕ)
    → counter + length operations < 2 ^ 64
    → (map (λ c. c.ctx) (children s now operations counter).0 ≡ below s counter operations)
      × ((children s now operations counter).1 ≡ counter + length operations)
unfolding child make
children-below s now [] counter h = (refl, omega arith)
children-below s now (operation ∷ operations) counter h =
    let e : (counter + 1) % 2 ^ 64 ≡ counter + 1 = mod-eq_of_lt (omega arith) in
    let (a, b) = children-below s now operations (counter + 1) (omega arith) in
    rw e (
      ap
          (λ l.
            record { trace_id = s.ctx.trace_id; span_id = counter; parent_span_id = s.ctx.span_id }
            ∷ l)
          a,
      omega (arith, b),
    )

-- ===== src/Chat/RoundTrip.antt =====
-- Messages written and read.
use forge_lock_free.Base.{
  ◌≡◌, refl, sym, ap, true, false, ◌&&◌, Bool-cases, inl, inr, none, List, [], ◌∷◌, ◌++◌, map,
  arith,
}
use forge_lock_free.Chat.{ToolCall, Message, empty, has_tool_calls, has_content}
use forge_lock_free.Chat.Json.{
  Outcome, done, Library, Laws, lookup, call_to_json, content_member, calls_member, id_member,
  to_json, messages_to_json, call_from_json, each, read_content, read_calls, read_id, from_json,
}
use Prim.Native.String.{String}
use text.Mathlib.TextEquality.{eq_iff}
use text.Mathlib.Text.{◌==◌ as str_eq}

module _ (l : Library) (w : Laws l) where
  open l use {Json, null, string, array, object, member, value, get_string, is_null, elements}

  call_from_json-call_to_json : (tc : ToolCall) → call_from_json l (call_to_json l tc) ≡ done tc
  unfolding call_from_json call_to_json
  call_from_json-call_to_json tc = simp (w.value-object, w.member-object, w.get_string-string)

  each-map :
      {A : Type 0} (f : A → Json) (g : Json → Outcome A) (xs : List A)
      → ((x : A) → g (f x) ≡ done x)
      → each l g (map f xs) ≡ done xs
  unfolding each
  each-map f g [] h = refl
  each-map f g (x ∷ xs) h = rw (h x, each-map f g xs h) refl

  calls_from_json :
      (tcs : List ToolCall) → each l (call_from_json l) (map (call_to_json l) tcs) ≡ done tcs
  calls_from_json tcs = each-map (call_to_json l) (call_from_json l) tcs call_from_json-call_to_json

  role_lem : (m : Message) → value (to_json l m) "role" "" ≡ done m.role
  unfolding to_json
  role_lem m = simp (w.value-object, w.get_string-string)

  calls_lookup : (m : Message) → lookup "content" (calls_member l m ++ id_member l m) ≡ none
  unfolding calls_member id_member
  calls_lookup m = elim (Bool-cases (has_tool_calls m)) [
    | inl e ↦ elim (Bool-cases (empty m.tool_call_id)) [
      | inl f ↦ rw (e, f) refl
      | inr f ↦ rw (e, f) refl
    ]
    | inr e ↦ elim (Bool-cases (empty m.tool_call_id)) [
      | inl f ↦ rw (e, f) refl
      | inr f ↦ rw (e, f) refl
    ]
  ]

  no_content : (m : Message) → has_content m ≡ false → done "" ≡ done m.content
  unfolding has_content
  no_content m e =
      let k : empty m.content ≡ true = ground (arith, e) in
      ap done (sym ((eq_iff m.content "").0 k))

  content_lem : (m : Message) → read_content l (member (to_json l m) "content") ≡ done m.content
  unfolding to_json content_member read_content
  content_lem m = rw w.member-object (elim (Bool-cases (has_content m)) [
    | inl e ↦
        rw (content_member, e)
          (rw (read_content, w.is_null-string m.content) (w.get_string-string m.content))
    | inr e ↦ elim (Bool-cases (str_eq m.role "assistant" && has_tool_calls m)) [
      | inl f ↦ rw (content_member, e, f, calls_lookup m) (no_content m e)
      | inr f ↦ rw (content_member, e, f) (rw (read_content, w.is_null-null) (no_content m e))
    ]
  ])

  past_content :
      (m : Message) (k : String) (r : List (String × Json))
      → str_eq "content" k ≡ false
      → lookup k (content_member l m ++ r) ≡ lookup k r
  unfolding content_member
  past_content m k r h = elim (Bool-cases (has_content m)) [
    | inl e ↦ rw (content_member, e, h) refl
    | inr e ↦ elim (Bool-cases (str_eq m.role "assistant" && has_tool_calls m)) [
      | inl f ↦ rw (content_member, e, f) refl
      | inr f ↦ rw (content_member, e, f, h) refl
    ]
  ]

  with_calls :
      (m : Message) (tcs : List ToolCall)
      → read_calls l
          (lookup "tool_calls" (calls_member l (record m { tool_calls = tcs }) ++ id_member l m))
        ≡ done tcs
  unfolding read_calls calls_member has_tool_calls id_member
  with_calls m [] = elim (Bool-cases (empty m.tool_call_id)) [
    | inl e ↦ rw (id_member, e) refl
    | inr e ↦ rw (id_member, e) refl
  ]
  with_calls m (c ∷ cs) = rw (w.elements-array) (calls_from_json (c ∷ cs))

  calls_lem : (m : Message) → read_calls l (member (to_json l m) "tool_calls") ≡ done m.tool_calls
  unfolding to_json
  calls_lem m =
      rw (w.member-object, past_content m "tool_calls" (calls_member l m ++ id_member l m) refl)
        (with_calls m m.tool_calls)

  past_calls :
      (m : Message)
      → lookup "tool_call_id" (calls_member l m ++ id_member l m)
        ≡ lookup "tool_call_id" (id_member l m)
  unfolding calls_member
  past_calls m = elim (Bool-cases (has_tool_calls m)) [
    | inl e ↦ rw (calls_member, e) refl
    | inr e ↦ rw (calls_member, e) refl
  ]

  id_lem : (m : Message) → read_id l (member (to_json l m) "tool_call_id") ≡ done m.tool_call_id
  unfolding to_json id_member read_id
  id_lem m =
      rw
        (
          w.member-object,
          past_content m "tool_call_id" (calls_member l m ++ id_member l m) refl,
          past_calls m,
        )
        (elim (Bool-cases (empty m.tool_call_id)) [
          | inl e ↦ rw (id_member, e) (ap done (sym ((eq_iff m.tool_call_id "").0 e)))
          | inr e ↦ rw (id_member, e) (w.get_string-string m.tool_call_id)
        ])

  -- Under the laws of the JSON library, a message of any role, content and calls is written to JSON and
  -- read back as it was.
  pub from_json-to_json : (m : Message) → from_json l (to_json l m) ≡ done m
  unfolding from_json
  from_json-to_json m = rw (from_json, role_lem m, content_lem m, calls_lem m, id_lem m) refl

  -- A history is written to an array from which every message is read back, in its order.
  pub messages_from_json :
      (ms : List Message) → each l (from_json l) (elements (messages_to_json l ms)) ≡ done ms
  unfolding messages_to_json
  messages_from_json ms =
      rw (w.elements-array) (each-map (to_json l) (from_json l) ms from_json-to_json)

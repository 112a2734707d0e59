-- ===== src/LlmClient/Reading.antt =====
-- What is read from the body of a response.
use forge_lock_free.Base.{
  ℕ, ◌%◌, ◌^◌, ◌<◌, ◌≡◌, ◌≢◌, refl, ◌⊎◌, inl, inr, ◌∙◌, ap, ◌==◌, none, some, [], ◌∷◌, arith,
  Bool-cases, Option-cases,
}
use forge_lock_free.Chat.{Message, LlmResponse, empty}
use forge_lock_free.Chat.Json.{Outcome, done, threw, Library, Laws, to_json}
use forge_lock_free.Chat.RoundTrip.{from_json-to_json}
use forge_lock_free.LlmClient.{
  HttpReply, blank, fine, fill_message, fill_usage, fill_model, read_body, report, read_parsed,
  respond,
}
use text.Mathlib.TextEquality.{eq_iff}
use text.Mathlib.TextLemmas.{length-append}
use Prim.Native.String.{String, count, ◌++◌ as ◌<>◌}

module _ (l : Library) (w : Laws l) where
  open l use {Json, string, number, array, object, parse}

  -- The body of a completion: one choice with a message, the counts of tokens, and the model.
  abbrev pub completion : Message → (prompt_tokens completion_tokens : ℕ) → (model : String) → Json
  completion m n k model = object (
      ("choices", array (object (("message", to_json l m) ∷ []) ∷ []))
      ∷ ("usage", object (("prompt_tokens", number n) ∷ ("completion_tokens", number k) ∷ []))
      ∷ ("model", string model)
      ∷ [])

  fill_message-completion :
      (m : Message) (n k : ℕ) (model : String) (r : LlmResponse)
      → fill_message l (completion m n k model) r ≡ fine (record r { message = m })
  unfolding fill_message
  fill_message-completion m n k model r =
      rw (fill_message, w.member-object)
        (rw (w.is_empty-array, w.front-array) (rw (w.member-object, from_json-to_json l w m) refl))

  fill_usage-completion :
      (m : Message) (n k : ℕ) (model : String) (r : LlmResponse)
      → fill_usage l (completion m n k model) r
        ≡ fine (record r { prompt_tokens = n % 2 ^ 32; completion_tokens = k % 2 ^ 32 })
  unfolding fill_usage
  fill_usage-completion m n k model r =
      rw (fill_usage, w.member-object)
        (rw
          (
            w.value_number-object _ "prompt_tokens",
            w.get_number-number n,
            w.value_number-object _ "completion_tokens",
            w.get_number-number k,
          )
          refl)

  fill_model-completion :
      (m : Message) (n k : ℕ) (model other : String) (r : LlmResponse)
      → fill_model l other (completion m n k model) r ≡ fine (record r { model = model })
  unfolding fill_model
  fill_model-completion m n k model other r =
      rw (fill_model, w.value-object) (rw (w.get_string-string model) refl)

  -- Under the laws of the JSON library: when the request succeeds with status 200, and the body parses to a
  -- completion with one choice, then the response has that message whole, the two counts of tokens reduced
  -- to 32 bits, the model, and no error.
  pub respond-completion :
      (decimal : ℕ → String) (model : String) (m : Message) (n k : ℕ) (body other : String)
      → parse body ≡ done (completion m n k model)
      → respond l decimal other (record { status = 200; body = body; error = "" }) ≡ record {
        message = m;
        prompt_tokens = n % 2 ^ 32;
        completion_tokens = k % 2 ^ 32;
        model = model;
        error = "";
      }
  unfolding respond read_parsed read_body report
  respond-completion decimal model m n k body other e =
      rw (respond, e, read_parsed, read_body, w.member-object)
        (rw (fill_message-completion m n k model blank) (
          rw (fill_usage-completion m n k model (record blank { message = m })) (
            rw
              (fill_model-completion m n k model other (record blank {
                message = m;
                prompt_tokens = n % 2 ^ 32;
                completion_tokens = k % 2 ^ 32;
              }))
              refl)))

no_prefix : (p s : String) → 0 < count p → p <> s ≢ ""
no_prefix p s h e = omega (arith, length-append p s, ap count e)

Outcome-cases :
    {A : Type 0} (o : Outcome A) → ((e : String) × (o ≡ threw e)) ⊎ ((a : A) × (o ≡ done a))
Outcome-cases (threw e) = inl (e, refl)
Outcome-cases (done a) = inr (a, refl)

-- What an absent error says of a parsed value.
abbrev pub Unharmed : (l : Library) → l.Json → Type 0
Unharmed l j =
    (l.member j "error" ≡ none)
    ⊎ ((e : l.Json) × (l.member j "error" ≡ some e)
        × (l.value e "message" "Unknown API error" ≡ done ""))

read_parsed-no_error :
    (l : Library) (model : String) (o : Outcome l.Json)
    → (read_parsed l model o).error ≡ ""
    → (j : l.Json) × (o ≡ done j) × Unharmed l j
unfolding read_parsed read_body report
read_parsed-no_error l model (threw e) h =
    absurd (no_prefix "Failed to parse API response: " e (omega arith) h)
read_parsed-no_error l model (done j) h = (
  j,
  refl,
  elim (Option-cases (l.member j "error")) [
    | inl a ↦ inl a
    | inr (e, a) ↦ elim (Outcome-cases (l.value e "message" "Unknown API error")) [
      | inl (x, b) ↦
          absurd
            (no_prefix "Failed to parse API response: " x (omega arith) (rw (read_body, a, b) at h))
      | inr (x, b) ↦ inr (e, a, b ∙ ap done (rw (read_body, a, b) at h))
    ]
  ],
)

-- When a response has no error, then the HTTP request had none, its status was 200, its body was parsed,
-- and what was parsed has no `error` member, or one whose message is empty.
pub respond-no_error :
    (l : Library) (decimal : ℕ → String) (model : String) (reply : HttpReply)
    → (respond l decimal model reply).error ≡ ""
    → (reply.error ≡ "")
      × (reply.status ≡ 200)
      × (j : l.Json) × (l.parse reply.body ≡ done j)
      × Unharmed l j
unfolding respond
respond-no_error l decimal model reply h = elim (Bool-cases (empty reply.error)) [
  | inr a ↦ absurd (no_prefix "HTTP error: " reply.error (omega arith) (rw (respond, a) at h))
  | inl a ↦ elim (Bool-cases (reply.status == 200)) [
    | inr b ↦ absurd (no_status (rw (respond, a, b) at h))
    | inl b ↦
        let (j, e, u) =
          read_parsed-no_error l model (l.parse reply.body) (rw (respond, a, b) at h) in
        ((eq_iff reply.error "").0 a, ground (arith, b), j, e, u)
  ]
]
  where
    no_status : "API error (HTTP " <> decimal reply.status <> "): " <> reply.body ≢ ""
    no_status e = no_prefix "API error (HTTP " _ (omega arith) e

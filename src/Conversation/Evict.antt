-- ===== src/Conversation/Evict.antt =====
-- What eviction keeps: the bound, the leading system message, and the newest messages.
use forge_lock_free.Base.{
  ℕ, zero, suc, ◌+◌, ◌-◌, ◌≤◌, ◌<◌, ◌≡◌, refl, true, false, List, [], ◌∷◌, ◌++◌, length,
  length-append, arith, drop, All, ap, ◌∙◌, dec_lt, lt→ltb, leb→ltb,
}
use forge_lock_free.Chat.{Message, is_system}
use forge_lock_free.Conversation.{Conversation, evict_one, evict, push}

length-evict_one : (m : Message) (ms : List Message) → length (evict_one (m ∷ ms)) ≡ length ms
unfolding evict_one
length-evict_one m [] = refl
length-evict_one m (n ∷ ms) = ground arith

-- The loop ends by its test: the fuel that is given, one for each message, is enough.
evict-length :
    (fuel max : ℕ) (ms : List Message)
    → length ms ≤ fuel
    → (length (evict fuel max ms) ≤ max) × (length (evict fuel max ms) ≤ length ms)
unfolding evict
evict-length zero max [] h = (omega arith, omega arith)
evict-length zero max (m ∷ ms) h = elim h [ ]
evict-length (suc fuel) max [] h = ground arith
evict-length (suc fuel) max (m ∷ ms) h =
    ground (arith, length-evict_one m ms, evict-length fuel max (evict_one (m ∷ ms)))

evict_one-system :
    (s m : Message) (ms : List Message) → is_system s ≡ true → evict_one (s ∷ m ∷ ms) ≡ s ∷ ms
unfolding evict_one
evict_one-system s m ms h = rw h

-- A conversation with a system message in front loses the oldest messages behind it.
evict-system :
    (fuel max : ℕ) (s : Message) (ms : List Message)
    → is_system s ≡ true
    → length ms ≤ fuel
    → evict fuel (suc max) (s ∷ ms) ≡ s ∷ drop (length ms - max) ms
unfolding evict
evict-system zero max s [] y h = ground arith
evict-system (suc fuel) max s [] y h = ground arith
evict-system zero max s (m ∷ ms) y h = elim h [ ]
evict-system (suc fuel) max s (m ∷ ms) y h = elim (dec_lt max (suc (length ms))) [
  | yes more ↦
      let e : suc (length ms) - max ≡ suc (length ms - max) = omega arith in
      rw (lt→ltb (suc max) (suc (suc (length ms))) (omega arith), evict_one-system s m ms y, e)
        (evict-system fuel max s ms y (omega arith))
  | no fits ↦
      let e : suc (length ms) - max ≡ 0 = omega arith in
      rw (leb→ltb (suc max) (suc (suc (length ms))) (omega arith), e)
]

-- A push leaves at most `max_messages` messages, and at most one more than there were.
pub push-length :
    (c : Conversation) (m : Message)
    → (length (push c m).messages ≤ c.max_messages)
      × (length (push c m).messages ≤ length c.messages + 1)
unfolding push
push-length c m =
    let all = c.messages ++ m ∷ [] in
    omega (
      arith,
      evict-length (length all) c.max_messages all (omega arith),
      length-append c.messages (m ∷ []),
    )

pub max-push : (c : Conversation) (m : Message) → (push c m).max_messages ≡ c.max_messages
unfolding push
max-push c m = refl

evict-fits : (fuel max : ℕ) (ms : List Message) → length ms ≤ max → evict fuel max ms ≡ ms
unfolding evict
evict-fits zero max ms h = refl
evict-fits (suc fuel) max ms h = rw (leb→ltb max (length ms) h)

-- Below the capacity a push only appends.
pub push-room :
    (c : Conversation) (m : Message)
    → length c.messages < c.max_messages
    → (push c m).messages ≡ c.messages ++ m ∷ []
unfolding push
push-room c m h =
    let all = c.messages ++ m ∷ [] in
    evict-fits (length all) c.max_messages all (omega (arith, length-append c.messages (m ∷ [])))

-- The messages of a conversation that starts with a system message, after one more push: the system
-- message stays in front, the newest messages stay in order behind it, and exactly as many of the
-- oldest behind it go as do not fit. This holds at every capacity but zero.
pub push-system :
    (max : ℕ) (s : Message) (ms : List Message) (m : Message)
    → is_system s ≡ true
    → push (record { max_messages = suc max; messages = s ∷ ms }) m ≡ record {
      max_messages = suc max;
      messages = s ∷ drop (suc (length ms) - max) (ms ++ m ∷ []);
    }
unfolding push
push-system max s ms m y =
    let all = ms ++ m ∷ [] in
    ap (λ x. record { max_messages = suc max; messages = x })
      (evict-system (length (s ∷ all)) max s all y (omega arith)
        ∙ ap (λ n. s ∷ drop n all) (omega (arith, length-append ms (m ∷ []))))

evict-plain :
    (fuel max : ℕ) (ms : List Message)
    → All (λ m. is_system m ≡ false) ms
    → length ms ≤ fuel
    → evict fuel max ms ≡ drop (length ms - max) ms
unfolding evict evict_one
evict-plain zero max [] h l = ground arith
evict-plain zero max (m ∷ ms) h l = elim l [ ]
evict-plain (suc fuel) max [] h l = ground arith
evict-plain (suc fuel) zero (m ∷ []) h l = ground (arith, evict-plain fuel 0 [])
evict-plain (suc fuel) (suc max) (m ∷ []) h l = ground arith
evict-plain (suc fuel) max (m ∷ n ∷ ms) h l = elim (dec_lt max (suc (suc (length ms)))) [
  | yes more ↦
      let e : suc (suc (length ms)) - max ≡ suc (suc (length ms) - max) = omega arith in
      rw (lt→ltb max (suc (suc (length ms))) more, e, h.0)
        (evict-plain fuel max (n ∷ ms) h.1 (omega arith))
  | no fits ↦
      let e : suc (suc (length ms)) - max ≡ 0 = omega arith in
      rw (leb→ltb max (suc (suc (length ms))) (omega arith), e)
]

-- A push to a conversation in which nothing is a system message keeps exactly the newest messages
-- that fit, in their order, at every capacity.
pub push-plain :
    (c : Conversation) (m : Message)
    → All (λ n. is_system n ≡ false) (c.messages ++ m ∷ [])
    → (push c m).messages ≡ drop (length c.messages + 1 - c.max_messages) (c.messages ++ m ∷ [])
unfolding push
push-plain c m h =
    let all = c.messages ++ m ∷ [] in
    evict-plain (length all) c.max_messages all h (omega arith)
    ∙ ap (λ n. drop n all) (omega (arith, length-append c.messages (m ∷ [])))

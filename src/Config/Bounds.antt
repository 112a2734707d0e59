-- ===== src/Config/Bounds.antt =====
-- What a loaded configuration can be.
use Prim.Native.String.{String}
use forge_lock_free.Base.{
  ℕ, ◌≤◌, ◌<◌, ◌≡◌, ◌⊎◌, refl, inl, inr, false, Option, none, some, ◌^◌, ◌%◌, arith, if_rule,
}
use native.Mathlib.Nat.{mod-lt}
use forge_lock_free.Chat.{empty}
use forge_lock_free.Chat.Json.{Outcome, done, threw, ◌>>=◌, Library}
use forge_lock_free.Config.{
  Doubles, Laws, Config, max_threads, sessions_limit, default_config, clamp, clamp_double, validate,
  parse_file, read, get_bits, read_most, read_config, load_config,
}

pub record InBounds (d : Doubles) (c : Config d.Double) : Type 0 where
  num_threads_ok : c.num_threads ≤ max_threads
  calls_ok : (1 ≤ c.max_concurrent_llm_calls) × (c.max_concurrent_llm_calls ≤ max_threads)
  limit_ok : (d.le c.llm_rate_limit d.zero_d ≡ false) × (d.gt c.llm_rate_limit d.million ≡ false)
  burst_ok : (d.le c.llm_rate_burst d.zero_d ≡ false) × (d.gt c.llm_rate_burst d.million ≡ false)
  sessions_ok : (1 ≤ c.max_sessions) × (c.max_sessions ≤ sessions_limit)
  iterations_ok : (1 ≤ c.default_max_iterations) × (c.default_max_iterations ≤ 10000)
  timeout_ok : (1 ≤ c.default_timeout_seconds) × (c.default_timeout_seconds ≤ 86400)
  host_ok : empty c.host ≡ false
  port_ok : (1 ≤ c.port) × (c.port < 2 ^ 16)

clamp-le :
    (low high default n : ℕ)
    → low ≤ default
    → default ≤ high
    → (low ≤ clamp low high default n) × (clamp low high default n ≤ high)
unfolding clamp
clamp-le low high default n h g = ground arith

module _ (l : Library) (d : Doubles) (laws : Laws d) where
  open d use {Double, zero_d, ten, sixty, million, le, gt}

  clamp_double-between :
      (default x : Double)
      → le default zero_d ≡ false
      → gt default million ≡ false
      → (le (clamp_double l d default x) zero_d ≡ false)
        × (gt (clamp_double l d default x) million ≡ false)
  unfolding clamp_double
  clamp_double-between default x h g = ground (arith, h, g)

  validate-InBounds : (c : Config Double) → c.port < 2 ^ 16 → InBounds d (validate l d c)
  unfolding validate
  validate-InBounds c p = record {
    num_threads_ok = (clamp-le 0 max_threads 0 c.num_threads (omega arith) (omega arith)).1;
    calls_ok = clamp-le 1 max_threads 8 c.max_concurrent_llm_calls (omega arith) (omega arith);
    limit_ok = clamp_double-between sixty c.llm_rate_limit laws.sixty-zero laws.sixty-million;
    burst_ok = clamp_double-between ten c.llm_rate_burst laws.ten-zero laws.ten-million;
    sessions_ok = clamp-le 1 sessions_limit 1000 c.max_sessions (omega arith) (omega arith);
    iterations_ok = clamp-le 1 10000 15 c.default_max_iterations (omega arith) (omega arith);
    timeout_ok = clamp-le 1 86400 300 c.default_timeout_seconds (omega arith) (omega arith);
    host_ok = if_rule (λ h. empty h ≡ false) (empty c.host) (λ e. refl) (λ e. e);
    port_ok = ground arith;
  }

  default_config-InBounds : InBounds d (default_config l d)
  default_config-InBounds = record {
    num_threads_ok = omega arith;
    calls_ok = omega arith;
    limit_ok = (laws.sixty-zero, laws.sixty-million);
    burst_ok = (laws.ten-zero, laws.ten-million);
    sessions_ok = omega arith;
    iterations_ok = omega arith;
    timeout_ok = omega arith;
    host_ok = refl;
    port_ok = omega arith;
  }

-- A predicate of the value, if there is one.
abbrev Yields {ℓ} : {A : Type ℓ} → (A → Type 0) → Outcome A → Type 0
Yields P (threw e) = Unit
Yields P (done a) = P a

Yields-bind {ℓ κ} :
    {A : Type ℓ} {B : Type κ} (Q : B → Type 0) (k : A → Outcome B) (o : Outcome A)
    → ((a : A) → Yields Q (k a))
    → Yields Q (o >>= k)
Yields-bind Q k (threw e) g = tt
Yields-bind Q k (done a) g = g a

Yields-map {ℓ κ} :
    {A : Type ℓ} {B : Type κ} (P : A → Type 0) (Q : B → Type 0) (f : A → B) (o : Outcome A)
    → Yields P o
    → ((a : A) → P a → Q (f a))
    → Yields Q (o >>= λ a. done (f a))
Yields-map P Q f (threw e) h g = tt
Yields-map P Q f (done a) h g = g a h

module _ (l : Library) (d : Doubles) (get_double : l.Json → Outcome d.Double) where
  open l use {Json, member, get_string}
  open d use {Double, sixty, ten}

  get_bits-lt : (w : ℕ) (j : Json) → 0 < 2 ^ w → Yields (λ n. n < 2 ^ w) (get_bits l d w j)
  unfolding get_bits
  get_bits-lt w j h =
      Yields-bind (λ n. n < 2 ^ w) (λ n. done (n % 2 ^ w)) (l.get_number j) (λ n. mod-lt n h)

  read-port : (o : Option Json) → Yields (λ n. n < 2 ^ 16) (read l d (get_bits l d 16) 8080 o)
  unfolding read
  read-port none = omega arith
  read-port (some j) = get_bits-lt 16 j (omega arith)

  read_config-port : (j : Json) → Yields (λ c. c.port < 2 ^ 16) (read_config l d get_double j)
  unfolding read_config
  read_config-port j =
      Yields-bind (λ c. c.port < 2 ^ 16)
        (λ c.
          read l d (get_bits l d 16) 8080 (member j "port") >>= λ p. done (record c { port = p }))
        (read_most l d get_double j)
        (λ c.
          Yields-map (λ n. n < 2 ^ 16) (λ b. b.port < 2 ^ 16) (λ p. record c { port = p })
            (read l d (get_bits l d 16) 8080 (member j "port")) (read-port (member j "port"))
            (λ p h. h))

  -- There is a configuration in bounds, or the file was parsed and a field of it was not converted.
  abbrev pub Ends : (String → Option String) → String → Type 0
  Ends open_file path =
      ((c : Config Double) × (load_config l d get_double open_file path ≡ done c) × InBounds d c)
      ⊎ ((j : Json) × (e : String) × (parse_file l open_file path ≡ done j)
          × (read_config l d get_double j ≡ threw e)
          × (load_config l d get_double open_file path ≡ threw e))

  read-Ends :
      (open_file : String → Option String) (path : String) (j : Json) (o : Outcome (Config Double))
      → Laws d
      → parse_file l open_file path ≡ done j
      → read_config l d get_double j ≡ o
      → Yields (λ c. c.port < 2 ^ 16) o
      → Ends open_file path
  unfolding load_config validate
  read-Ends open_file path j (threw e) laws p q y = inr (j, e, p, q, rw (load_config, p, q) refl)
  read-Ends open_file path j (done c) laws p q y =
      inl (validate l d c, rw (load_config, p, q) refl, validate-InBounds l d laws c y)

  -- The reading of a file ends in one of two ways. Either there is a configuration, and every field of
  -- it lies in its range; or the file was parsed, some field of it could not be converted, and that
  -- exception leaves `load_config`.
  pub load_config-Ends :
      (open_file : String → Option String) (path : String) → Laws d → Ends open_file path
  unfolding load_config
  load_config-Ends open_file path laws = parsed (parse_file l open_file path) refl
    where
      parsed : (o : Outcome Json) → parse_file l open_file path ≡ o → Ends open_file path
      parsed (threw e) p =
          inl (default_config l d, rw (load_config, p) refl, default_config-InBounds l d laws)
      parsed (done j) p =
          read-Ends open_file path j (read_config l d get_double j) laws p refl (read_config-port j)

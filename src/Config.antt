-- ===== src/Config.antt =====
-- `Config` of src/utils/config.h and `load_config` of src/utils/config.cpp, with `parse_file` of
-- src/utils/json.h. Of the doubles only the comparisons matter, which are parameters.
pub mod Bounds
mod Tests
use Prim.Native.String.{String, ◌++◌ as ◌<>◌}
use forge_lock_free.Base.{
  ℕ, ◌%◌, ◌^◌, ◌≡◌, Bool, true, false, ◌||◌, Option, none, some, ltb, ◌==◌, if◌then◌else◌,
}
use forge_lock_free.Chat.{empty}
use forge_lock_free.Chat.Json.{Outcome, done, threw, ◌>>=◌, Library}

-- `double`, with its literals that `load_config` has, and `<=` and `>`.
pub record Doubles : Type 1 where
  pub Double : Type 0
  pub zero_d : Double
  pub ten : Double
  pub sixty : Double
  pub million : Double
  pub le : Double → Double → Bool
  pub gt : Double → Double → Bool

-- IEEE comparisons of the literals.
pub record Laws (d : Doubles) : Type 0 where
  pub sixty-zero : d.le d.sixty d.zero_d ≡ false
  pub sixty-million : d.gt d.sixty d.million ≡ false
  pub ten-zero : d.le d.ten d.zero_d ≡ false
  pub ten-million : d.gt d.ten d.million ≡ false

pub record Config (D : Type 0) : Type 0 where
  pub num_threads : ℕ
  pub max_concurrent_llm_calls : ℕ
  pub llm_rate_limit : D
  pub llm_rate_burst : D
  pub max_sessions : ℕ
  pub default_max_iterations : ℕ
  pub default_timeout_seconds : ℕ
  pub log_level : String
  pub host : String
  pub port : ℕ

abbrev pub max_threads : ℕ
max_threads = 1024

abbrev pub sessions_limit : ℕ
sessions_limit = 100000

-- `json_util::parse_file`, with what the file holds if it can be opened.
unfoldable pub parse_file : (l : Library) → (String → Option String) → String → Outcome l.Json
parse_file l open_file path = elim (open_file path) [
  | none ↦ threw ("Cannot open JSON file: " <> path)
  | some text ↦ elim (l.parse text) [
    | threw e ↦ threw ("JSON parse error in " <> path <> ": " <> e)
    | done j ↦ done j
  ]
]

-- A field that must lie in a range, and has its default if not.
unfoldable pub clamp : (low high default n : ℕ) → ℕ
clamp low high default n = if ltb n low || ltb high n then default else n

module _ (l : Library) (d : Doubles) where
  open l use {Json, member, get_string, get_number}
  open d use {Double, zero_d, ten, sixty, million, le, gt}

  abbrev pub default_config : Config Double
  default_config = record {
    num_threads = 0;
    max_concurrent_llm_calls = 8;
    llm_rate_limit = sixty;
    llm_rate_burst = ten;
    max_sessions = 1000;
    default_max_iterations = 15;
    default_timeout_seconds = 300;
    log_level = "info";
    host = "127.0.0.1";
    port = 8080;
  }

  unfoldable pub clamp_double : Double → Double → Double
  clamp_double default x = if le x zero_d || gt x million then default else x

  -- The checks after the fields are read.
  unfoldable pub validate : Config Double → Config Double
  unfolding clamp clamp_double
  validate c = record c {
    num_threads = clamp 0 max_threads 0 c.num_threads;
    max_concurrent_llm_calls = clamp 1 max_threads 8 c.max_concurrent_llm_calls;
    llm_rate_limit = clamp_double sixty c.llm_rate_limit;
    llm_rate_burst = clamp_double ten c.llm_rate_burst;
    max_sessions = clamp 1 sessions_limit 1000 c.max_sessions;
    default_max_iterations = clamp 1 10000 15 c.default_max_iterations;
    default_timeout_seconds = clamp 1 86400 300 c.default_timeout_seconds;
    host = if empty c.host then "127.0.0.1" else c.host;
    port = if c.port == 0 then 8080 else c.port;
  }

  -- The lambda `read`: the member if it is there, by `get`, else what the field has.
  unfoldable pub read : {A : Type 0} → (Json → Outcome A) → A → Option Json → Outcome A
  read get a none = done a
  read get a (some j) = get j

  -- `get<unsigned>` and `get<uint16_t>` keep the low bits.
  unfoldable pub get_bits : ℕ → Json → Outcome ℕ
  get_bits w j = do n ← get_number j; done (n % 2 ^ w)

  module _ (get_double : Json → Outcome Double) where
    -- The fields before the port.
    unfoldable pub read_most : Json → Outcome (Config Double)
    unfolding read get_bits
    read_most j = do
      num_threads ← read (get_bits 32) 0 (member j "num_threads")
      max_concurrent_llm_calls ← read (get_bits 32) 8 (member j "max_concurrent_llm_calls")
      llm_rate_limit ← read get_double sixty (member j "llm_rate_limit")
      llm_rate_burst ← read get_double ten (member j "llm_rate_burst")
      max_sessions ← read (get_bits 32) 1000 (member j "max_sessions")
      default_max_iterations ← read (get_bits 32) 15 (member j "default_max_iterations")
      default_timeout_seconds ← read (get_bits 32) 300 (member j "default_timeout_seconds")
      log_level ← read get_string "info" (member j "log_level")
      host ← read get_string "127.0.0.1" (member j "host")
      done (record default_config {
        num_threads = num_threads;
        max_concurrent_llm_calls = max_concurrent_llm_calls;
        llm_rate_limit = llm_rate_limit;
        llm_rate_burst = llm_rate_burst;
        max_sessions = max_sessions;
        default_max_iterations = default_max_iterations;
        default_timeout_seconds = default_timeout_seconds;
        log_level = log_level;
        host = host;
      })

    unfoldable pub read_config : Json → Outcome (Config Double)
    unfolding read get_bits read_most
    read_config j = do
      c ← read_most j
      port ← read (get_bits 16) 8080 (member j "port")
      done (record c { port = port })

    unfoldable pub load_config : (String → Option String) → String → Outcome (Config Double)
    unfolding parse_file read_config validate
    load_config open_file path = elim (parse_file l open_file path) [
      | threw e ↦ done default_config
      | done j ↦ (do c ← read_config j; done (validate c))
    ]

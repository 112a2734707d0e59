-- ===== src/CommandLine/Tests.antt =====
-- Command lines read with numbers for doubles.
use Prim.Native.String.{String}
use text.Mathlib.Text.{◌==◌ as str_eq}
use forge_lock_free.Base.{ℕ, ◌≡◌, refl, true, [], ◌∷◌, ◌++◌, List, if◌then◌else◌}
use forge_lock_free.Chat.Json.{Outcome, done, threw}
use forge_lock_free.Tools.FileRead.{ℤ, pos}
use forge_lock_free.WorkflowFactory.{Factory, has, constructor}
use forge_lock_free.Config.{Config}
use forge_lock_free.CommandLine.{
  Options, unset, flag_of, options, stopped, missing_value, round, parse, overridden, exits, serves,
  start, main,
}
use forge_lock_free.CommandLine.Sequence.{parse-append}

abbrev seven : String → Outcome ℤ
seven v = if str_eq v "7" then done (pos 7) else threw "stoi"

abbrev limits : List String
limits = "--max-iterations" ∷ "7" ∷ "-v" ∷ []

abbrev limited : Options
limited = record unset { max_iterations = pos 7; verbose = true }

reads : parse seven limits unset ≡ options limited
unfolding parse flag_of round
reads = refl

lacks : parse seven ("-v" ∷ "-p" ∷ []) unset ≡ stopped (missing_value "-p")
unfolding parse flag_of round
lacks = refl

appended : parse seven (limits ++ "-s" ∷ []) unset ≡ parse seven ("-s" ∷ []) limited
appended = parse-append seven limits ("-s" ∷ []) unset limited reads

abbrev workflows : Factory ℕ
workflows = ("react", 0) ∷ []

abbrev defaults : Config ℕ
defaults = record {
  num_threads = 0;
  max_concurrent_llm_calls = 8;
  llm_rate_limit = 60;
  llm_rate_burst = 10;
  max_sessions = 1000;
  default_max_iterations = 15;
  default_timeout_seconds = 300;
  log_level = "info";
  host = "127.0.0.1";
  port = 8080;
}

-- No mode.
no_mode : main seven workflows (λ p. done defaults) defaults 0 limits ≡ done (exits 1)
unfolding main start parse flag_of round has constructor
no_mode = refl

server :
    main seven workflows (λ p. done defaults) defaults 0 ("-s" ∷ limits)
    ≡ done (serves (record defaults { log_level = "debug"; default_max_iterations = 7 }))
unfolding main start parse flag_of round has constructor overridden
server = refl

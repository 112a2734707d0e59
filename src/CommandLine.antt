-- ===== src/CommandLine.antt =====
-- `main` of src/main.cpp: its arguments, the configuration that they change, and what it starts.
-- `std::stoi` and the reading of a configuration file are parameters.
pub mod Sequence
mod Tests
use Prim.Native.String.{String}
use text.Mathlib.Text.{◌==◌ as str_eq}
use forge_lock_free.Base.{
  ℕ, zero, suc, ◌||◌, ◌&&◌, not, Bool, true, false, Option, none, some, List, [], ◌∷◌, ◌++◌,
  if◌then◌else◌,
}
use forge_lock_free.Chat.{message, empty}
use forge_lock_free.Chat.Json.{Outcome, done, threw}
use forge_lock_free.Conversation.{push}
use forge_lock_free.Session.{Session, SessionConfig, make}
use forge_lock_free.WorkflowFactory.{Factory, has}
use forge_lock_free.Config.{Config}
use forge_lock_free.Tools.FileRead.{ℤ, pos, negsuc}

pub record Options : Type 0 where
  pub config_path : String
  pub workflow : String
  pub prompt : String
  pub tools_path : String
  pub model : String
  pub api_key : String
  pub api_base : String
  pub max_iterations : ℤ
  pub verbose : Bool
  pub serve : Bool

abbrev pub unset : Options
unset = record {
  config_path = "";
  workflow = "react";
  prompt = "";
  tools_path = "";
  model = "";
  api_key = "";
  api_base = "";
  max_iterations = negsuc 0;
  verbose = false;
  serve = false;
}

-- What one argument asks for.
pub data Flag : Type 0 where
  help serve_flag verbose_flag unknown : Flag
  config workflow_flag prompt_flag tools model_flag key base iterations : Flag

abbrev is_one_of : String → String → String → Bool
is_one_of arg short long = str_eq arg short || str_eq arg long

unfoldable pub flag_of : String → Flag
flag_of arg =
    if is_one_of arg "-h" "--help"
    then help
    else if is_one_of arg "-c" "--config"
    then config
    else if is_one_of arg "-w" "--workflow"
    then workflow_flag
    else if is_one_of arg "-p" "--prompt"
    then prompt_flag
    else if is_one_of arg "-s" "--serve"
    then serve_flag
    else if is_one_of arg "-t" "--tools"
    then tools
    else if is_one_of arg "-m" "--model"
    then model_flag
    else if is_one_of arg "-k" "--api-key"
    then key
    else if str_eq arg "--api-base"
    then base
    else if str_eq arg "--max-iterations"
    then iterations
    else if is_one_of arg "-v" "--verbose"
    then verbose_flag
    else unknown

-- Why the loop ends early: after the usage text, at an argument that is not known or that lacks its
-- value, or by an exception of `stoi`.
pub data Stop : Type 0 where
  usage : Stop
  unknown_option missing_value escaped : String → Stop

pub data Parsed : Type 0 where
  options : Options → Parsed
  stopped : Stop → Parsed

-- One round of the loop: what it does to the options, with the next argument if it takes one.
pub data Round : Type 0 where
  plain : Options → Round
  takes : (String → Outcome Options) → Round
  stops : Stop → Round

module _ (stoi : String → Outcome ℤ) where
  unfoldable pub round : Flag → String → Options → Round
  round help arg o = stops usage
  round serve_flag arg o = plain (record o { serve = true })
  round verbose_flag arg o = plain (record o { verbose = true })
  round unknown arg o = stops (unknown_option arg)
  round config arg o = takes (λ v. done (record o { config_path = v }))
  round workflow_flag arg o = takes (λ v. done (record o { workflow = v }))
  round prompt_flag arg o = takes (λ v. done (record o { prompt = v }))
  round tools arg o = takes (λ v. done (record o { tools_path = v }))
  round model_flag arg o = takes (λ v. done (record o { model = v }))
  round key arg o = takes (λ v. done (record o { api_key = v }))
  round base arg o = takes (λ v. done (record o { api_base = v }))
  round iterations arg o =
      takes
        (λ v. elim (stoi v) [ threw e ↦ threw e | done n ↦ done (record o { max_iterations = n }) ])

  -- The loop over the arguments.
  unfoldable pub parse : List String → Options → Parsed
  unfolding flag_of round
  parse [] o = options o
  parse (arg ∷ []) o = elim (round (flag_of arg) arg o) [
    | plain p ↦ options p
    | takes f ↦ stopped (missing_value arg)
    | stops s ↦ stopped s
  ]
  parse (arg ∷ v ∷ args) o = elim (round (flag_of arg) arg o) [
    | plain p ↦ parse (v ∷ args) p
    | takes f ↦ elim (f v) [ threw e ↦ stopped (escaped e) | done p ↦ parse args p ]
    | stops s ↦ stopped s
  ]

-- `static_cast<unsigned>` of a number that is positive.
abbrev positive_or : ℕ → ℤ → ℕ
positive_or d (pos zero) = d
positive_or d (pos (suc n)) = suc n
positive_or d (negsuc n) = d

-- How `main` goes on: it returns a code, it starts the server, or it runs a session on a workflow.
pub data Start (D : Type 0) : Type 0 where
  exits : ℕ → Start D
  serves : Config D → Start D
  runs : Config D → (workflow : String) → Session → Start D

module _ {D : Type 0} where
  unfoldable pub overridden : Options → Config D → Config D
  overridden o c = record c {
    log_level = if o.verbose then "debug" else c.log_level;
    default_max_iterations = positive_or c.default_max_iterations o.max_iterations;
  }

  -- The session of the prompt, made at time `now`.
  unfoldable pub session_of : ℕ → Options → Config D → Session
  session_of now o c =
      let limits : SessionConfig = record {
        max_iterations = c.default_max_iterations;
        max_history = 100;
        timeout = c.default_timeout_seconds;
      } in
      let s : Session = make 1 limits now in
      record s {
        history =
            push
              (push s.history (
                message "system"
                  "You are a helpful assistant with access to tools. Use tools when needed to answer questions accurately. When you have the final answer, respond directly without calling tools."))
              (message "user" o.prompt);
      }

module _ {W D : Type 0} where
  -- From the options on. `load` and `defaults` are `load_config` and `default_config`.
  unfoldable pub start :
      Factory W
      → (String → Outcome (Config D))
      → (defaults : Config D) → ℕ
      → Options
      → Outcome (Start D)
  unfolding overridden session_of
  start factory load defaults now o =
      elim (if empty o.config_path then done defaults else load o.config_path) [
        | threw e ↦ threw e
        | done c ↦ done (
            if not o.serve && empty o.prompt
            then exits 1
            else if not (has o.workflow factory)
            then exits 1
            else if o.serve
            then serves (overridden o c)
            else runs (overridden o c) o.workflow (session_of now o (overridden o c)))
      ]

  -- The whole of `main` up to there.
  unfoldable pub main :
      (String → Outcome ℤ)
      → Factory W
      → (String → Outcome (Config D))
      → (defaults : Config D) → ℕ
      → List String
      → Outcome (Start D)
  unfolding start
  main stoi factory load defaults now args = elim (parse stoi args unset) [
    | options o ↦ start factory load defaults now o
    | stopped s ↦ elim s [
      | usage ↦ done (exits 0)
      | unknown_option arg ↦ done (exits 1)
      | missing_value arg ↦ done (exits 1)
      | escaped e ↦ threw e
    ]
  ]

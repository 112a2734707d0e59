-- ===== src/Config/Tests.antt =====
-- Configurations from one known file, with numbers for doubles.
use Prim.Native.String.{String}
use forge_lock_free.Base.{ℕ, ◌≡◌, refl, ltb, leb, Option, some, [], ◌∷◌}
use forge_lock_free.Chat.Json.{done, threw, Library}
use forge_lock_free.Chat.Instance.{Value, library, object, fields, number, get_number}
use forge_lock_free.Config.{
  Doubles, Laws, clamp, clamp_double, default_config, validate, parse_file, read, get_bits,
  read_most, read_config, load_config,
}
use forge_lock_free.Config.Bounds.{Ends, load_config-Ends}

abbrev whole : Doubles
whole = record {
  Double = ℕ;
  zero_d = 0;
  ten = 10;
  sixty = 60;
  million = 1000000;
  le = leb;
  gt = λ a b. ltb b a;
}

whole-Laws : Laws whole
whole-Laws = record { sixty-zero = refl; sixty-million = refl; ten-zero = refl; ten-million = refl }

abbrev known : Value → Library
known v = library v

abbrev file : String → Option String
file path = some ""

-- A port and a number of sessions past their types' ranges are taken modulo them, the number of calls
-- is replaced.
abbrev wide : Value
wide = object (
    fields (
      ("port", number 65616)
      ∷ ("max_sessions", number 4294967299)
      ∷ ("max_concurrent_llm_calls", number 2000)
      ∷ []))

wraps :
    load_config (known wide) whole get_number file "c.json"
    ≡ done (record (default_config (known wide) whole) { port = 80; max_sessions = 3 })
unfolding load_config parse_file read_config read_most read get_bits validate clamp clamp_double
wraps = refl

-- A host that is a number.
abbrev wrong : Value
wrong = object (fields (("host", number 1) ∷ []))

escapes : load_config (known wrong) whole get_number file "c.json" ≡ threw "type must be string"
unfolding load_config parse_file read_config read_most read get_bits
escapes = refl

load_config-Ends_example : Ends (known wide) whole get_number file "c.json"
load_config-Ends_example = load_config-Ends (known wide) whole get_number file "c.json" whole-Laws

-- ===== src/Chat/Instance.antt =====
-- A type of JSON values, an instance of the library with its laws.
use forge_lock_free.Base.{ℕ, ◌≡◌, refl, ap, Bool, true, false, Option, none, List, [], ◌∷◌, map}
use forge_lock_free.Chat.{Message}
use forge_lock_free.Chat.Json.{Outcome, done, threw, Library, Laws, lookup, or_else}
use Prim.Native.String.{String}

mutual
  pub data Value : Type 0 where
    null : Value
    string : String → Value
    number : ℕ → Value
    boolean : Bool → Value
    array : Values → Value
    object : Fields → Value

  pub data Values : Type 0 where
    no_values : Values
    one_more : Value → Values → Values

  pub data Fields : Type 0 where
    no_fields : Fields
    field : String → Value → Fields → Fields

abbrev pub pack : List Value → Values
pack [] = no_values
pack (v ∷ vs) = one_more v (pack vs)

abbrev pub unpack : Values → List Value
unpack no_values = []
unpack (one_more v vs) = v ∷ unpack vs

abbrev pub fields : List (String × Value) → Fields
fields [] = no_fields
fields ((k, v) ∷ fs) = field k v (fields fs)

abbrev pub pairs : Fields → List (String × Value)
pairs no_fields = []
pairs (field k v fs) = (k, v) ∷ pairs fs

unpack-pack : (vs : List Value) → unpack (pack vs) ≡ vs
unpack-pack [] = refl
unpack-pack (v ∷ vs) = rw (unpack-pack vs) refl

pairs-fields : (fs : List (String × Value)) → pairs (fields fs) ≡ fs
pairs-fields [] = refl
pairs-fields ((k, v) ∷ fs) = rw (pairs-fields fs) refl

abbrev pub member : Value → String → Option Value
member (object fs) k = lookup k (pairs fs)
member v k = none

abbrev pub get_string : Value → Outcome String
get_string (string s) = done s
get_string v = threw "type must be string"

abbrev pub get_number : Value → Outcome ℕ
get_number (number n) = done n
get_number v = threw "type must be number"

abbrev pub value : Value → String → String → Outcome String
value (object fs) k d = or_else (done d) get_string (lookup k (pairs fs))
value v k d = threw "cannot use value()"

abbrev pub value_number : Value → String → Outcome ℕ
value_number (object fs) k = or_else (done 0) get_number (lookup k (pairs fs))
value_number v k = threw "cannot use value()"

abbrev pub is_null : Value → Bool
is_null null = true
is_null v = false

abbrev pub is_array : Value → Bool
is_array (array vs) = true
is_array v = false

abbrev pub is_empty : Value → Bool
is_empty null = true
is_empty (array no_values) = true
is_empty (object no_fields) = true
is_empty v = false

abbrev pub elements : Value → List Value
elements null = []
elements (array vs) = unpack vs
elements (object fs) = map (λ p. p.1) (pairs fs)
elements v = v ∷ []

abbrev pub front : Value → Outcome Value
front (array (one_more v vs)) = done v
front v = threw "cannot use operator[]"

-- `parse` knows one text.
abbrev pub library : Value → Library
library known = record {
  Json = Value;
  null = null;
  string = string;
  number = number;
  boolean = boolean;
  array = λ vs. array (pack vs);
  object = λ fs. object (fields fs);
  member = member;
  value = value;
  value_number = value_number;
  get_string = get_string;
  get_number = get_number;
  is_null = is_null;
  is_array = is_array;
  is_empty = is_empty;
  elements = elements;
  front = front;
  parse = λ s. done known;
  dump = λ j. "";
}

pub library-Laws : (known : Value) → Laws (library known)
library-Laws known = record {
  member-object = λ fs k. ap (lookup k) (pairs-fields fs);
  value-object = λ fs k d. ap (λ r. or_else (done d) get_string (lookup k r)) (pairs-fields fs);
  value_number-object =
      λ fs k. ap (λ r. or_else (done 0) get_number (lookup k r)) (pairs-fields fs);
  get_string-string = λ s. refl;
  get_number-number = λ n. refl;
  is_null-null = refl;
  is_null-string = λ s. refl;
  is_empty-array = λ x xs. refl;
  elements-array = unpack-pack;
  front-array = λ x xs. refl;
}

abbrev pub calling : Message
calling = record {
  role = "assistant";
  content = "";
  tool_calls =
      record { id = "call_1"; name = "calculator"; arguments_json = "{\"expression\": \"2+3\"}" }
      ∷ [];
  tool_call_id = "";
}

-- ===== src/Json.antt =====
-- nlohmann::json, a library that the program calls: the operations that stratum/ and pool/ use are
-- a parameter of the model. An operation that may throw returns a `Result`.
use minerby.Base.{
  ℕ, ◌<◌, ◌^◌, ℤ, pos, Bytes, List, [], ◌∷◌, Bool, true, Option, none, some, Result, ok, ◌≡◌,
  if◌then◌else◌, same_bytes,
}

pub record JsonLib (Double : Type 0) : Type 1 where
  pub Json : Type 0
  pub parse : Bytes → Option Json  -- `none` where json::parse throws
  pub read : Bytes → Option Json  -- `in >> j`, which leaves what follows the value
  pub dump_indented : Json → Bytes  -- dump(2)
  pub dump : Json → Bytes
  pub is_null : Json → Bool
  pub is_boolean : Json → Bool
  pub is_string : Json → Bool
  pub is_array : Json → Bool
  pub elements : Json → List Json  -- of an array: size, [i] in range, and the range-for loop
  pub get_string : Json → Result Bytes
  pub get_int : Json → Result ℤ
  pub get_bool : Json → Result Bool
  pub get_double : Json → Result Double
  pub contains : Json → Bytes → Bool
  pub member : Json → Bytes → Result Json  -- `at`, or `[]` on a key that is there
  pub value_string : Json → Bytes → Bytes → Result Bytes
  pub value_int : Json → Bytes → ℤ → Result ℤ
  pub value_u16 : Json → Bytes → ℕ → Result ℕ
  pub value_u64 : Json → Bytes → ℕ → Result ℕ
  pub value_bool : Json → Bytes → Bool → Result Bool
  pub value_double : Json → Bytes → Double → Result Double
  pub is_object : Json → Bool
  pub value_json : Json → Bytes → Json → Result Json
  pub null : Json
  pub string : Bytes → Json
  pub number : ℕ → Json
  pub real : Double → Json
  pub boolean : Bool → Json
  pub array : List Json → Json
  pub object : List (Bytes × Json) → Json

-- The value of a key among the fields that an object is built of.
abbrev pub first_of : {A : Type 0} → List (Bytes × A) → Bytes → Option A
first_of [] key = none
first_of (f ∷ fs) key = if same_bytes f.0 key then some f.1 else first_of fs key

-- What the library documents of arrays and of the values that it builds.
pub record IsJsonLib {Double : Type 0} (J : JsonLib Double) : Type 0 where
  pub is_array-array : (xs : List J.Json) → J.is_array (J.array xs) ≡ true
  pub elements-array : (xs : List J.Json) → J.elements (J.array xs) ≡ xs
  pub get_string-string : (s : Bytes) → J.get_string (J.string s) ≡ ok s
  pub is_boolean-boolean : (b : Bool) → J.is_boolean (J.boolean b) ≡ true
  pub get_bool-boolean : (b : Bool) → J.get_bool (J.boolean b) ≡ ok b
  pub get_int-number : (n : ℕ) → J.get_int (J.number n) ≡ ok (pos n)

-- What it documents of objects.
pub record IsObjectLib {Double : Type 0} (J : JsonLib Double) : Type 0 where
  pub value_u64-object :
      (fs : List (Bytes × J.Json)) (key : Bytes) (n d : ℕ)
      → n < 2 ^ 64
      → first_of fs key ≡ some (J.number n)
      → J.value_u64 (J.object fs) key d ≡ ok n
  pub value_double-object :
      (fs : List (Bytes × J.Json)) (key : Bytes) (x d : Double)
      → first_of fs key ≡ some (J.real x)
      → J.value_double (J.object fs) key d ≡ ok x

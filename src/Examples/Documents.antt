-- ===== src/Examples/Documents.antt =====
-- `JsonLib` with documents as trees. Parsing knows the lines that the examples send.
use minerby.Base.{
  ℕ, ℤ, pos, Bytes, List, [], ◌∷◌, ◌++◌, Bool, true, false, Option, none, some, Result, ok, err,
  type_error, out_of_range, ◌≡◌, refl, ap, ◌∙◌, if◌then◌else◌, same_bytes,
}
use minerby.Json.{JsonLib, IsJsonLib, IsObjectLib, first_of}

mutual
  pub data Document : Type 0 where
    nothing : Document
    flag : Bool → Document
    whole_number : ℕ → Document
    text : Bytes → Document
    row : Row → Document
    table : Table → Document

  pub data Row : Type 0 where
    no_entry : Row
    entry : Document → Row → Row

  pub data Table : Type 0 where
    no_key : Table
    keyed : Bytes → Document → Table → Table

abbrev pub entries : Row → List Document
entries no_entry = []
entries (entry d r) = d ∷ entries r

abbrev pub to_row : List Document → Row
to_row [] = no_entry
to_row (d ∷ ds) = entry d (to_row ds)

abbrev pub to_table : List (Bytes × Document) → Table
to_table [] = no_key
to_table (f ∷ fs) = keyed f.0 f.1 (to_table fs)

abbrev pub look_up : Table → Bytes → Option Document
look_up no_key key = none
look_up (keyed k d t) key = if same_bytes k key then some d else look_up t key

abbrev pub field_of : Document → Bytes → Option Document
field_of (table t) key = look_up t key
field_of _ key = none

abbrev pub or_missing : Option Document → Result Document
or_missing none = err out_of_range
or_missing (some d) = ok d

abbrev pub text_of : Document → Result Bytes
text_of (text s) = ok s
text_of _ = err type_error

abbrev pub number_of : Document → Result ℕ
number_of (whole_number n) = ok n
number_of _ = err type_error

abbrev pub integer_of : Document → Result ℤ
integer_of (whole_number n) = ok (pos n)
integer_of _ = err type_error

abbrev pub flag_of : Document → Result Bool
flag_of (flag b) = ok b
flag_of _ = err type_error

abbrev pub entries_of : Document → List Document
entries_of (row r) = entries r
entries_of _ = []

-- `value(key, fallback)`
abbrev pub or_fallback :
    {A : Type 0} → (Document → Result A) → A → Document → Option Document → Result A
or_fallback read fallback (table t) none = ok fallback
or_fallback read fallback (table t) (some d) = read d
or_fallback read fallback _ found = err type_error

abbrev pub is_some : Option Document → Bool
is_some none = false
is_some (some d) = true

-- A text that tells tables of numbers apart: each key, and the number as one entry.
abbrev pub value_of : Document → Bytes
value_of (whole_number n) = n ∷ []
value_of _ = []

abbrev pub fields : Table → Bytes
fields no_key = []
fields (keyed k d t) = k ++ (value_of d ++ fields t)

abbrev pub printed : Document → Bytes
printed (table t) = fields t
printed _ = []

-- The documents that have a line of their own.
abbrev pub documents : List (Bytes × Document) → JsonLib ℕ
documents lines = record {
  Json = Document;
  parse = λ line. look_up (to_table lines) line;
  read = λ line. look_up (to_table lines) line;
  dump_indented = printed;
  dump = printed;
  is_null = λ d. elim d [ nothing ↦ true | _ ↦ false ];
  is_boolean = λ d. elim d [ flag b ↦ true | _ ↦ false ];
  is_string = λ d. elim d [ text s ↦ true | _ ↦ false ];
  is_array = λ d. elim d [ row r ↦ true | _ ↦ false ];
  elements = entries_of;
  get_string = text_of;
  get_int = integer_of;
  get_bool = flag_of;
  get_double = number_of;
  contains = λ d key. is_some (field_of d key);
  member = λ d key. or_missing (field_of d key);
  value_string = λ d key fallback. or_fallback text_of fallback d (field_of d key);
  value_int = λ d key fallback. or_fallback integer_of fallback d (field_of d key);
  value_u16 = λ d key fallback. or_fallback number_of fallback d (field_of d key);
  value_u64 = λ d key fallback. or_fallback number_of fallback d (field_of d key);
  value_bool = λ d key fallback. or_fallback flag_of fallback d (field_of d key);
  value_double = λ d key fallback. or_fallback number_of fallback d (field_of d key);
  is_object = λ d. elim d [ table t ↦ true | _ ↦ false ];
  value_json = λ d key fallback. or_fallback ok fallback d (field_of d key);
  null = nothing;
  string = text;
  number = whole_number;
  real = whole_number;
  boolean = flag;
  array = λ ds. row (to_row ds);
  object = λ fs. table (to_table fs);
}

entries-to_row : (ds : List Document) → entries (to_row ds) ≡ ds
entries-to_row [] = refl
entries-to_row (d ∷ ds) = ap (◌∷◌ d) (entries-to_row ds)

pub documents-IsJsonLib : (lines : List (Bytes × Document)) → IsJsonLib (documents lines)
documents-IsJsonLib lines = record {
  is_array-array = λ xs. refl;
  elements-array = entries-to_row;
  get_string-string = λ s. refl;
  is_boolean-boolean = λ b. refl;
  get_bool-boolean = λ b. refl;
  get_int-number = λ n. refl;
}

look_up-first_of :
    (fs : List (Bytes × Document)) (key : Bytes) → look_up (to_table fs) key ≡ first_of fs key
look_up-first_of [] key = refl
look_up-first_of (f ∷ fs) key =
    ap (λ found. if same_bytes f.0 key then some f.1 else found) (look_up-first_of fs key)

pub documents-IsObjectLib : (lines : List (Bytes × Document)) → IsObjectLib (documents lines)
documents-IsObjectLib lines = record {
  value_u64-object = λ fs key n d fits e.
      ap (or_fallback number_of d (table (to_table fs))) (look_up-first_of fs key ∙ e);
  value_double-object = λ fs key x d e.
      ap (or_fallback number_of d (table (to_table fs))) (look_up-first_of fs key ∙ e);
}

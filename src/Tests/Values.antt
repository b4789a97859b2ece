-- ===== src/Tests/Values.antt =====
-- A small instance of the MATLAB Data API: texts, arrays of numbers with their dimensions, and
-- structure arrays whose fields are scalars, texts or empty.
use srs_ran_matlab.Prelude.{
  ℕ, ◌+◌, ◌*◌, String, not, List, [], ◌∷◌, Option, none, some, ◌==◌, length, get_elem?, str_eq,
  if◌then◌else◌,
}
use srs_ran_matlab.Mex.{Matlab, ArrayType, char, double, struct, Result, ok, err, exception, ◌>>=◌}

pub data Leaf : Type 0 where
  leaf_num : ℕ → Leaf
  leaf_text : String → Leaf
  leaf_empty : Leaf

pub data Value : Type 0 where
  chars : String → Value
  tensor : ArrayType → List ℕ → List ℕ → Value
  structs : List (List (String × Leaf)) → Value

abbrev type_of : Value → ArrayType
type_of (chars s) = char
type_of (tensor type dims xs) = type
type_of (structs rows) = struct

abbrev dims_of : Value → List ℕ
dims_of (chars s) = 1 ∷ 1 ∷ []
dims_of (tensor type dims xs) = dims
dims_of (structs rows) = length rows ∷ 1 ∷ []

abbrev count_of : Value → ℕ
count_of (chars s) = 1
count_of (tensor type dims xs) = length xs
count_of (structs rows) = length rows

abbrev ascii_of : Value → Result String
ascii_of (chars s) = ok s
ascii_of (tensor type dims xs) = err exception
ascii_of (structs rows) = err exception

abbrev or_exception {ℓ} : {A : Type ℓ} → Option A → Result A
or_exception none = err exception
or_exception (some a) = ok a

abbrev elements_of : Value → Result (List ℕ)
elements_of (chars s) = err exception
elements_of (tensor type dims xs) = ok xs
elements_of (structs rows) = err exception

abbrev value_of : Leaf → Value
value_of (leaf_num n) = tensor double (1 ∷ 1 ∷ []) (n ∷ [])
value_of (leaf_text s) = chars s
value_of leaf_empty = tensor double (0 ∷ 0 ∷ []) []

abbrev named : String → List (String × Leaf) → Option Leaf
named name [] = none
named name ((key, leaf) ∷ fields) = if str_eq key name then some leaf else named name fields

abbrev rows_of : Value → List (List (String × Leaf))
rows_of (chars s) = []
rows_of (tensor type dims xs) = []
rows_of (structs rows) = rows

abbrev field_of : Value → ℕ → String → Result Value
field_of a i name = do
  fields ← or_exception (get_elem? (rows_of a) i)
  leaf ← or_exception (named name fields)
  ok (value_of leaf)

abbrev element_of : Value → ℕ → Result ℕ
element_of a i = do xs ← elements_of a; or_exception (get_elem? xs i)

abbrev extent : List ℕ → ℕ → ℕ
extent dims i = elim (get_elem? dims i) [ some n ↦ n | none ↦ 1 ]

-- By columns.
abbrev complex_element_of : Value → ℕ → ℕ → ℕ → Result ℕ
complex_element_of a i j k =
    element_of a ((k * extent (dims_of a) 1 + j) * extent (dims_of a) 0 + i)

abbrev pub matlab : Matlab
matlab = record {
  Array = Value;
  Number = ℕ;
  Complex = ℕ;
  get_type = type_of;
  get_dimensions = dims_of;
  get_number_of_elements = count_of;
  is_empty = λ a. count_of a == 0;
  to_ascii = ascii_of;
  field = field_of;
  element = element_of;
  elements = elements_of;
  complex_elements = elements_of;
  complex_element = complex_element_of;
  as_unsigned = λ n. n;
  as_uint16 = λ n. n;
  as_uint8 = λ n. n;
  as_uint64 = λ n. n;
  as_bool = λ n. not (n == 0);
}

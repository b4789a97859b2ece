-- ===== src/Mex/Inputs.antt =====
-- The part of the MATLAB Data API (`matlab::data`) that the sources read their inputs by. The
-- library is not part of the repository, so it is a parameter: a type of arrays with its observers.
use srs_ran_matlab.Prelude.{ℕ, zero, suc, String, Bool, not, ◌||◌, List, [], ◌∷◌, ◌==◌, ltb}
use srs_ran_matlab.Mex.Outcome.{Result, ok, err, exception, ◌>>=◌}

-- The members of `matlab::data::ArrayType` that the sources name; `other` stands for the rest.
pub data ArrayType : Type 0 where
  char double logical uint64 int8 struct complex_single complex_double other : ArrayType

abbrev type_code : ArrayType → ℕ
type_code char = 0
type_code double = 1
type_code logical = 2
type_code uint64 = 3
type_code int8 = 4
type_code struct = 5
type_code complex_single = 6
type_code complex_double = 7
type_code other = 8

-- `a == b` on types.
abbrev pub is_type : ArrayType → ArrayType → Bool
is_type a b = type_code a == type_code b

pub record Matlab : Type 1 where
  -- `matlab::data::Array`, and the values that its elements hold
  pub Array : Type 0
  pub Number : Type 0
  pub Complex : Type 0
  pub get_type : Array → ArrayType
  pub get_dimensions : Array → List ℕ
  pub get_number_of_elements : Array → ℕ
  pub is_empty : Array → Bool
  -- `CharArray(a).toAscii()`
  pub to_ascii : Array → Result String
  -- `StructArray(a)[i]["name"]`
  pub field : Array → ℕ → String → Result Array
  -- `a[i]`
  pub element : Array → ℕ → Result Number
  -- the elements of a `TypedArray` in the order of its iterator
  pub elements : Array → Result (List Number)
  pub complex_elements : Array → Result (List Complex)
  -- `a[i][j][k]` of an array of complex numbers
  pub complex_element : Array → ℕ → ℕ → ℕ → Result Complex
  -- C++ conversions of an element
  pub as_unsigned : Number → ℕ
  pub as_uint16 : Number → ℕ
  pub as_uint8 : Number → ℕ
  pub as_uint64 : Number → ℕ
  pub as_bool : Number → Bool

module _ (m : Matlab) where
  open m use {Array, Number, element, field, get_type, get_number_of_elements, as_unsigned, as_bool}

  -- `inputs[i]`
  abbrev pub input : List Array → ℕ → Result Array
  input [] i = err exception
  input (x ∷ xs) zero = ok x
  input (x ∷ xs) (suc i) = input xs i

  -- `static_cast<unsigned>(in_cfg["name"][0])` for `in_cfg` the first element of a `StructArray`
  abbrev pub unsigned_field : Array → String → Result ℕ
  unsigned_field cfg name = do
    value ← field cfg 0 name
    number ← element value 0
    ok (as_unsigned number)

  abbrev pub bool_field : Array → String → Result Bool
  bool_field cfg name = do value ← field cfg 0 name; number ← element value 0; ok (as_bool number)

  -- `CharArray(in_cfg["name"]).toAscii()`
  abbrev pub text_field : Array → String → Result String
  text_field cfg name = do value ← field cfg 0 name; m.to_ascii value

  -- `(a.getType() != type) || (a.getNumberOfElements() > 1)`
  abbrev pub not_scalar : ArrayType → Array → Bool
  not_scalar type a = not (is_type (get_type a) type) || ltb 1 (get_number_of_elements a)

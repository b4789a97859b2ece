-- ===== src/Unittest.antt =====
-- unittests/srsran_mex_dispatcher_test.cpp: a MEX function with two actions, for trying the dispatcher.
use srs_ran_matlab.Prelude.{ℕ, String, not, List, [], ◌∷◌, ◌==◌, length}
use srs_ran_matlab.Mex.{Matlab, Result, ok, abort_if, input, is_type, double, ◌>>=◌, ◌>>◌}
use srs_ran_matlab.Mex.Call.{lift}
use srs_ran_matlab.Mex.Dispatcher.{Callbacks, create_callbacks}

-- `in + n`, on the values of type `double`
pub record DoubleApi (Number : Type 0) : Type 0 where
  pub add : Number → ℕ → Number

-- What a method prints and returns.
pub record Printed (Number : Type 0) : Type 0 where
  pub message : String
  pub printed : Number
  pub output : Number

module _ (m : Matlab) (api : DoubleApi m.Number) where
  unfoldable pub method_one : List m.Array → Result (Printed m.Number)
  method_one inputs = do
    abort_if (not (length inputs == 2)) "Wrong number of inputs." []
    in1 ← input m inputs 1
    abort_if (not (is_type (m.get_type in1) double)) "Input must be a scalar double." []
    number ← m.element in1 0
    ok (record {
      message = "This is method one with input ";
      printed = number;
      output = api.add number 1;
    })

  unfoldable pub method_two : List m.Array → Result (Printed m.Number)
  method_two inputs = do
    abort_if (not (length inputs == 2)) "Wrong number of inputs." []
    in1 ← input m inputs 1
    abort_if (not (is_type (m.get_type in1) double)) "Input must be a scalar double." []
    number ← m.element in1 0
    ok (record {
      message = "This is method two with input ";
      printed = number;
      output = api.add number 2;
    })

  abbrev pub callback_table : Callbacks m.Array (Unit {0}) (Printed m.Number)
  callback_table =
      ("one", λ outputs inputs. lift (method_one inputs))
      ∷ ("two", λ outputs inputs. lift (method_two inputs))
      ∷ []

  unfoldable pub construct : Result (Callbacks m.Array (Unit {0}) (Printed m.Number))
  construct = create_callbacks callback_table []

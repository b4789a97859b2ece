-- ===== src/Demodulator/Methods.antt =====
-- pusch_demodulator_mex.cpp: `method_new` and `method_step`. The state of the MEX object is its
-- `demodulator`, `none` for a null pointer.
use srs_ran_matlab.Prelude.{ℕ, false, List, [], ◌∷◌, Option, none, some, replicate}
use srs_ran_matlab.Mex.{Matlab, Result, ok, err, abort, null_dereference, input, unsigned_field}
use srs_ran_matlab.Mex.{◌>>=◌ as bind}
use srs_ran_matlab.Mex.Call.{Call, done, stop, lift, ◌>>=◌, ◌>>◌}
use srs_ran_matlab.Mex.Dispatcher.{Callbacks, create_callbacks}
use srs_ran_matlab.Grid.{GridApi, read_resource_grid}
use srs_ran_matlab.Demodulator.Api.{DemodulatorConfiguration, BufferCall, DemodulatorApi}
use srs_ran_matlab.Demodulator.Factory.{create_pusch_demodulator}
use srs_ran_matlab.Demodulator.Inputs.{
  read_equalizer, check_step_outputs_inputs, read_demodulator_config, read_estimates, run_calls,
}

module _ (m : Matlab) (grids : GridApi m.Complex) {Llr : Type 0}
    (api : DemodulatorApi m.Number m.Complex grids.Grid Llr) where
  open api use {Demodulator, ChannelEstimate}

  abbrev pub Mex : Type 0
  Mex = Option Demodulator

  -- What a method puts into its outputs: nothing, or the soft bits.
  pub data Reply : Type 0 where
    no_outputs : Reply
    soft_bits : List Llr → Reply

  -- `demodulator = create_pusch_demodulator(eq_type);` and the check of it
  unfoldable pub create : Option Demodulator → Call Mex Reply
  create none s = stop (abort "Cannot create srsRAN PUSCH demodulator." []) none
  create (some demodulator) s = done no_outputs (some demodulator)

  unfoldable pub method_new : ℕ → List m.Array → Call Mex Reply
  method_new outputs inputs = do
    eq_type ← lift (read_equalizer m outputs inputs)
    created ← lift (create_pusch_demodulator api.factories eq_type)
    create created

  abbrev pub grid_or_abort : Option grids.Grid → Result grids.Grid
  grid_or_abort none = err (abort "Cannot create resource grid." [])
  grid_or_abort (some grid) = ok grid

  abbrev pub finish : Demodulator → Result (List Llr) → Call Mex Reply
  finish demodulator (ok llrs) s = done (soft_bits llrs) (some demodulator)
  finish demodulator (err e) s = stop e (some demodulator)

  -- The memory of the output array, after the calls that the demodulator makes of the buffer.
  unfoldable pub demodulated : ℕ → List (BufferCall Llr) → Result (List Llr)
  demodulated nof_expected_soft_output_bits calls =
      bind
        (run_calls calls (record {
          completed = false;
          base = api.out_address;
          soft_bits = replicate nof_expected_soft_output_bits api.zero_llr;
          count = 0;
        }))
        (λ sch_data. ok sch_data.soft_bits)

  -- `demodulator->demodulate(...)`; through a null pointer, which C++ leaves undefined and the source does
  -- not check, it is a call without outputs.
  unfoldable pub demodulate :
      Option Demodulator
      → grids.Grid
      → ChannelEstimate
      → DemodulatorConfiguration
      → ℕ
      → Call Mex Reply
  demodulate none grid chan_estimates demodulator_config nof_bits s = stop null_dereference s
  demodulate (some demodulator) grid chan_estimates demodulator_config nof_bits s =
      let (demodulator', calls) =
        api.demodulate demodulator grid chan_estimates demodulator_config in
      finish demodulator' (demodulated nof_bits calls) s

  unfoldable pub method_step : ℕ → List m.Array → Call Mex Reply
  method_step outputs inputs = do
    lift (check_step_outputs_inputs m outputs inputs)
    in_dem_cfg ← lift (input m inputs 4)
    demodulator_config ← lift (read_demodulator_config m api in_dem_cfg)
    in1 ← lift (input m inputs 1)
    read ← lift (read_resource_grid m grids in1)
    grid ← lift (grid_or_abort read)
    chan_estimates ← lift (read_estimates m api inputs demodulator_config)
    nof_expected_soft_output_bits ← lift (unsigned_field m in_dem_cfg "NumOutputLLR")
    λ s. demodulate s grid chan_estimates demodulator_config nof_expected_soft_output_bits s

  abbrev pub callback_table : Callbacks m.Array Mex Reply
  callback_table = ("new", method_new) ∷ ("step", method_step) ∷ []

  -- The constructor: the object, whose member is a null pointer yet, and its callbacks.
  unfoldable pub construct : Result (Mex × Callbacks m.Array Mex Reply)
  construct = bind (create_callbacks callback_table []) (λ callbacks. ok (none, callbacks))

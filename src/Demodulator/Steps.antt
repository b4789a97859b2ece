-- ===== src/Demodulator/Steps.antt =====
-- pusch_demodulator_mex.cpp: when the methods return.
use srs_ran_matlab.Prelude.{
  ℕ, ◌≡◌, ◌↔◌, refl, ap, ◌∙◌, String, true, false, not, List, [], ◌∷◌, Option, none, some, ◌==◌,
  eq_iff, arith,
}
use srs_ran_matlab.Mex.{
  Matlab, Error, null_dereference, Result, ok, err, abort_if-eq-ok, input, is_type, char,
  unsigned_field, >>=-eq-ok, ok-injective,
}
use srs_ran_matlab.Mex.Call.{Call, Outcome, done, stop, lift, resume, lift-done}
use srs_ran_matlab.Grid.{GridApi, read_resource_grid}
use srs_ran_matlab.Demodulator.Factory.{EqualizerType, zf, mmse, create_pusch_demodulator}
use srs_ran_matlab.Demodulator.Api.{DemodulatorApi}
use srs_ran_matlab.Demodulator.Inputs.{
  equalizer_type, read_equalizer, check_step_outputs_inputs, read_demodulator_config,
  read_estimates,
}
use srs_ran_matlab.Demodulator.Methods.{
  Mex, Reply, no_outputs, create, method_new, grid_or_abort, demodulate, method_step,
}

-- The call stops and leaves this state.
abbrev pub StopsIn : {S A : Type 0} → S → Outcome S A → Type 0
StopsIn s o = (e : Error) × (o ≡ stop e s)

lift-StopsIn :
    {S A B : Type 0} (s : S) (r : Result A) (f : A → Call S B)
    → ((a : A) → StopsIn s (f a s))
    → StopsIn s (resume f (lift r s))
lift-StopsIn s (ok a) f h = h a
lift-StopsIn s (err e) f h = (e, refl)

-- The name of an equalizer.
abbrev pub equalizer_name : EqualizerType → String
equalizer_name zf = "ZF"
equalizer_name mmse = "MMSE"

equalizer_type-ok :
    (name : String) (type : EqualizerType)
    → equalizer_type name ≡ ok type
    → name ≡ equalizer_name type
unfolding equalizer_type
equalizer_type-ok name zf h = ground (arith, eq_iff name "MMSE", eq_iff name "ZF")
equalizer_type-ok name mmse h = ground (arith, eq_iff name "MMSE", eq_iff name "ZF")

equalizer_type_name : (type : EqualizerType) → equalizer_type (equalizer_name type) ≡ ok type
unfolding equalizer_type
equalizer_type_name zf = refl
equalizer_type_name mmse = refl

module _ (m : Matlab) where
  read_equalizer-ok :
      (outputs : ℕ) (inputs : List m.Array) (type : EqualizerType)
      → read_equalizer m outputs inputs ≡ ok type
      → (action in1 : m.Array) × (inputs ≡ action ∷ in1 ∷ [])
        × (is_type (m.get_type in1) char ≡ true)
        × (m.to_ascii in1 ≡ ok (equalizer_name type))
        × (outputs ≡ 0)
  unfolding read_equalizer
  read_equalizer-ok outputs [] type h = ground arith
  read_equalizer-ok outputs (action ∷ []) type h = ground arith
  read_equalizer-ok outputs (action ∷ in1 ∷ x ∷ xs) type h = ground arith
  read_equalizer-ok outputs (action ∷ in1 ∷ []) type h =
      let c = abort_if-eq-ok (not (is_type (m.get_type in1) char)) _ _ _ h in
      let n = >>=-eq-ok (m.to_ascii in1) _ c.1 in
      let t = >>=-eq-ok (equalizer_type n.0) _ n.2 in
      let o = abort_if-eq-ok (not (outputs == 0)) _ _ _ t.2 in
      let named = equalizer_type-ok n.0 t.0 t.1 ∙ ap equalizer_name (ok-injective t.0 type o.1) in
      (action, in1, refl, ground (arith, c.0), n.1 ∙ ap ok named, ground (arith, o.0))

  read_equalizer_complete :
      (action in1 : m.Array) (type : EqualizerType)
      → is_type (m.get_type in1) char ≡ true
      → m.to_ascii in1 ≡ ok (equalizer_name type)
      → read_equalizer m 0 (action ∷ in1 ∷ []) ≡ ok type
  unfolding read_equalizer
  read_equalizer_complete action in1 type is_char name =
      let typed : (not (is_type (m.get_type in1) char)) ≡ false = ground (arith, is_char) in
      rw (typed, name, equalizer_type_name type) refl

module _ (m : Matlab) (grids : GridApi m.Complex) {Llr : Type 0}
    (api : DemodulatorApi m.Number m.Complex grids.Grid Llr) where
  create-done :
      (o : Option api.Demodulator) (s t : Mex m grids api) (r : Reply m grids api)
      → create m grids api o s ≡ done r t
      → (demodulator : api.Demodulator) × (o ≡ some demodulator)
        × (t ≡ some demodulator)
        × (r ≡ no_outputs)
  unfolding create
  create-done none s t r h = ground arith
  create-done (some demodulator) s t r h = (demodulator, refl, ground arith, ground arith)

  -- No outputs and two inputs, of which the second is a char array with the name of an equalizer. The
  -- factories make a demodulator for it, which is left in the object.
  pub record IsMade (outputs : ℕ) (inputs : List m.Array) (r : Reply m grids api)
      (t : Mex m grids api) : Type 0 where
    pub action : m.Array
    pub in1 : m.Array
    pub are_two : inputs ≡ action ∷ in1 ∷ []
    pub none_wanted : outputs ≡ 0
    pub is_char : is_type (m.get_type in1) char ≡ true
    pub type : EqualizerType
    pub has_name : m.to_ascii in1 ≡ ok (equalizer_name type)
    pub demodulator : api.Demodulator
    pub by_factory : create_pusch_demodulator api.factories type ≡ ok (some demodulator)
    pub left : t ≡ some demodulator
    pub nothing : r ≡ no_outputs

  method_new_sound :
      (outputs : ℕ) (inputs : List m.Array) (s t : Mex m grids api) (r : Reply m grids api)
      → method_new m grids api outputs inputs s ≡ done r t
      → IsMade outputs inputs r t
  unfolding method_new create
  method_new_sound outputs inputs s t r h =
      let (type, read, made) = lift-done s (read_equalizer m outputs inputs) _ h in
      let (action, in1, two, is_char, name, none_wanted) =
        read_equalizer-ok m outputs inputs type read in
      let (created, by_factory, checked) =
        lift-done s (create_pusch_demodulator api.factories type) _ made in
      let (demodulator, there, left, nothing) = create-done created s t r checked in
      record {
        action = action;
        in1 = in1;
        are_two = two;
        none_wanted = none_wanted;
        is_char = is_char;
        type = type;
        has_name = name;
        demodulator = demodulator;
        by_factory = by_factory ∙ ap ok there;
        left = left;
        nothing = nothing;
      }

  method_new_complete :
      (outputs : ℕ) (inputs : List m.Array) (s t : Mex m grids api) (r : Reply m grids api)
      → IsMade outputs inputs r t
      → method_new m grids api outputs inputs s ≡ done r t
  unfolding method_new create
  method_new_complete outputs inputs s t r d =
      rw
        (
          d.none_wanted,
          d.are_two,
          read_equalizer_complete m d.action d.in1 d.type d.is_char d.has_name,
          d.by_factory,
          d.left,
          d.nothing,
        )
        refl

  -- `method_new` returns exactly for no outputs and two inputs of which the second is the text ZF or
  -- MMSE, if the factories make a demodulator for the equalizer of this name. It then leaves this
  -- demodulator in the object, whatever was there before.
  pub method_new_iff :
      (outputs : ℕ) (inputs : List m.Array) (s t : Mex m grids api) (r : Reply m grids api)
      → (method_new m grids api outputs inputs s ≡ done r t) ↔ IsMade outputs inputs r t
  method_new_iff outputs inputs s t r =
      (method_new_sound outputs inputs s t r, method_new_complete outputs inputs s t r)

  -- A step of an object without a demodulator, as it is before the first `new`, has no outputs: it stops
  -- at a check or at the call through the null pointer.
  pub step_before_new :
      (outputs : ℕ) (inputs : List m.Array)
      → StopsIn {A = Reply m grids api} none (method_step m grids api outputs inputs none)
  unfolding method_step demodulate
  step_before_new outputs inputs =
      lift-StopsIn none (check_step_outputs_inputs m outputs inputs) _ λ checked.
        lift-StopsIn none (input m inputs 4) _ λ in_dem_cfg.
          lift-StopsIn none (read_demodulator_config m api in_dem_cfg) _ λ demodulator_config.
            lift-StopsIn none (input m inputs 1) _ λ in1.
              lift-StopsIn none (read_resource_grid m grids in1) _ λ read.
                lift-StopsIn none (grid_or_abort m grids api read) _ λ grid.
                  lift-StopsIn none (read_estimates m api inputs demodulator_config) _
                    λ chan_estimates.
                      lift-StopsIn none (unsigned_field m in_dem_cfg "NumOutputLLR") _
                        λ nof_bits. (null_dereference, refl)

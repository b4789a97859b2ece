-- ===== src/Capabilities.antt =====
-- pusch_processor_capabilities_mex.cpp: the call operator, which overrides the dispatcher's.
use srs_ran_matlab.Prelude.{ℕ, not, List, [], ◌∷◌, ◌==◌, length}
use srs_ran_matlab.Mex.{Matlab, Result, ok, num, abort_if, ◌>>◌}

-- `srsran::pusch_processor_phy_capabilities`
pub record PhyCapabilities : Type 0 where
  pub max_nof_layers : ℕ

-- `srsran::get_pusch_processor_phy_capabilities()`, and the conversion to `double`
pub record CapabilitiesApi : Type 1 where
  pub Double : Type 0
  pub to_double : ℕ → Double
  pub get_pusch_processor_phy_capabilities : PhyCapabilities

-- The field of the structure that is returned.
pub record CapabilitiesOut (Double : Type 0) : Type 0 where
  pub num_layers : Double

module _ (m : Matlab) (api : CapabilitiesApi) where
  unfoldable pub get_capabilities : List m.Array → Result (CapabilitiesOut api.Double)
  get_capabilities inputs = do
    abort_if (not (length inputs == 0))
        "srsPUSCHCapabilitiesMEX: Wrong number of inputs: expected 0, provided {}."
        (num (length inputs) ∷ [])
    let capabilities = api.get_pusch_processor_phy_capabilities
    ok (record { num_layers = api.to_double capabilities.max_nof_layers })

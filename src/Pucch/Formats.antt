-- ===== src/Pucch/Formats.antt =====
-- pucch_processor_mex.cpp: the configurations of all formats, as the fields of the MATLAB structure.
use srs_ran_matlab.Prelude.{◌≡◌, ◌↔◌}
use srs_ran_matlab.Mex.{Matlab, ok}
use srs_ran_matlab.Pucch.Config.{
  Format0Configuration, Format1Configuration, Format2Configuration, Format3Configuration,
  Format4Configuration,
}
use srs_ran_matlab.Pucch.Populate.{
  populate_f0_configuration, populate_f1_configuration, populate_f2_configuration,
  populate_f3_configuration, populate_f4_configuration,
}
use srs_ran_matlab.Pucch.SequenceFormats.{
  IsFormat0, IsFormat1, f0-IsFormat0, IsFormat0-f0, f1-IsFormat1, IsFormat1-f1,
}
use srs_ran_matlab.Pucch.CodedFormats.{
  IsFormat2, IsFormat3, IsFormat4, f2-IsFormat2, IsFormat2-f2, f3-IsFormat3, IsFormat3-f3,
  f4-IsFormat4, IsFormat4-f4,
}

-- For every format, a configuration is read from a structure exactly when each of its members is that
-- of its field: the spacing is 15 kHz doubled by the numerology, the prefix is the one of the name, the
-- ports are counted from 0 up to the number of ports, and there is a second hop exactly when its field
-- is not empty. For format 0 there is an SR opportunity exactly when the number of SR bits is 1.
pub populate_iff :
    (m : Matlab) (in_cfg : m.Array) (cfg0 : Format0Configuration) (cfg1 : Format1Configuration)
    (cfg2 : Format2Configuration) (cfg3 : Format3Configuration) (cfg4 : Format4Configuration)
    → ((populate_f0_configuration m in_cfg ≡ ok cfg0) ↔ IsFormat0 m in_cfg cfg0)
      × ((populate_f1_configuration m in_cfg ≡ ok cfg1) ↔ IsFormat1 m in_cfg cfg1)
      × ((populate_f2_configuration m in_cfg ≡ ok cfg2) ↔ IsFormat2 m in_cfg cfg2)
      × ((populate_f3_configuration m in_cfg ≡ ok cfg3) ↔ IsFormat3 m in_cfg cfg3)
      × ((populate_f4_configuration m in_cfg ≡ ok cfg4) ↔ IsFormat4 m in_cfg cfg4)
populate_iff m in_cfg cfg0 cfg1 cfg2 cfg3 cfg4 = (
  (f0-IsFormat0 m in_cfg cfg0, IsFormat0-f0 m in_cfg cfg0),
  (f1-IsFormat1 m in_cfg cfg1, IsFormat1-f1 m in_cfg cfg1),
  (f2-IsFormat2 m in_cfg cfg2, IsFormat2-f2 m in_cfg cfg2),
  (f3-IsFormat3 m in_cfg cfg3, IsFormat3-f3 m in_cfg cfg3),
  (f4-IsFormat4 m in_cfg cfg4, IsFormat4-f4 m in_cfg cfg4),
)

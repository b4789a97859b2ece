-- ===== src/Demodulator.antt =====
-- The PUSCH demodulator MEX function: pusch_demodulator_mex.h and pusch_demodulator_mex.cpp.
pub mod Factory
pub mod Codeword
pub mod Api
pub mod Inputs
pub mod Methods
pub mod Estimates
pub mod Steps
pub mod History
pub mod Output
pub mod Delivered

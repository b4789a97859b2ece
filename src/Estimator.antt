-- ===== src/Estimator.antt =====
-- The multiport channel estimator MEX function: multiport_channel_estimator_mex.h and
-- multiport_channel_estimator_mex.cpp.
pub mod Factory
pub mod Api
pub mod Inputs
pub mod Outputs
pub mod Methods
pub mod History
pub mod Pilots
pub mod Written
pub mod Rows
pub mod Layers
pub mod Readable
pub mod Checked
pub mod Estimated

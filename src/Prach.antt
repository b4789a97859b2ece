-- ===== src/Prach.antt =====
-- The PRACH detector MEX function: prach_detector_mex.h and prach_detector_mex.cpp.
pub mod Api
pub mod Step
pub mod Factory
pub mod Fill
pub mod Detect
pub mod Read
pub mod Detected

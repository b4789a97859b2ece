-- ===== src/Pucch.antt =====
-- The PUCCH processor MEX function: pucch_processor_mex.h and pucch_processor_mex.cpp.
pub mod Config
pub mod Populate
pub mod Api
pub mod Message
pub mod Processor
pub mod Reported
pub mod Step
pub mod Factory
pub mod Entries
pub mod Multiplex
pub mod Rows
pub mod Checks
pub mod Served
pub mod Ports
pub mod Fields
pub mod SequenceFormats
pub mod CodedFormats
pub mod Formats
pub mod Single

-- ===== src/Decoder.antt =====
-- The PUSCH decoder MEX function: pusch_decoder_mex.h and pusch_decoder_mex.cpp.
pub mod Api
pub mod Heap
pub mod Inputs
pub mod Methods
pub mod Factory
pub mod Pools
pub mod Spec
pub mod Retrieve
pub mod Refines
pub mod Contract
pub mod New
pub mod Dispatch
pub mod Lifecycle
pub mod History
pub mod Isolation
pub mod Release
pub mod Returns
pub mod Roundtrip

-- ===== src/Tests.antt =====
-- Runs of the models on concrete values, with concrete instances of the libraries that the sources
-- use.
mod Values
mod Memento
mod Convert
mod Dispatcher
mod Codeword
mod Decoder
mod Release
mod History
mod Isolation
mod Grid
mod Pucch
mod Formats
mod Single
mod Prach
mod Detected
mod Demodulator
mod Delivered
mod Estimator
mod Estimated
mod Checked
mod After

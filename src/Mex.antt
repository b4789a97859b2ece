-- ===== src/Mex.antt =====
-- What every MEX function of +srsMEX/source shares: how a call ends, and the MATLAB values it is
-- called with. The dispatcher is in `Mex/Dispatcher.antt`.
mod Outcome
mod Inputs
pub mod Call
pub mod Dispatcher
pub mod Loop
pub use Outcome.*
pub use Inputs.*

-- ===== src/Tests.antt =====
-- Concrete runs of the model, and the theorems at concrete inputs.
pub mod Bits
pub mod Metadata
mod Frames
mod Residuals
mod Samples
mod Subframes
mod Channels
mod Checks
mod Safety

-- ===== src/Bitio.antt =====
-- internal/bitio: packing and unpacking bits.
pub mod Source
pub mod Register
pub mod Reader
pub mod Writer
pub mod RoundTrip

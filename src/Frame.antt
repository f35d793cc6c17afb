-- ===== src/Frame.antt =====
-- internal/frame: audio frames.
pub mod CodedNumber
pub mod Header
pub mod Decorrelate
pub mod Subframe
pub mod Decode
pub mod Encode

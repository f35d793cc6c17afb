-- ===== src/Meta.antt =====
-- internal/meta: the metadata blocks that precede the audio frames.
pub mod StreamInfo
pub mod SeekTable
pub mod VorbisComment
pub mod Blocks

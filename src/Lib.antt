-- ===== src/Lib.antt =====
-- A model of go-flac, a FLAC encoder and decoder in Go.
--
-- The program packs a stream bit by bit. internal/bitio holds the bit writer and the bit reader
-- that everything else is built on; internal/meta the metadata blocks before the audio;
-- internal/frame the audio frames; internal/rice, internal/i32 and internal/lpc the coding of
-- samples within a frame; pcm the public encoder and decoder.
--
-- Which file models what:
-- - Prelude, Bitstream: shared notation, lists over native numbers, powers of two, 64-bit words,
--   and the abstract view of a buffer as a list of bits.
-- - Errors: the sentinel errors of flac.go and of Go's io package.
-- - Bitio/Writer: internal/bitio/writer.go, `Writer` as a record with `acc` a 64-bit word. Contents
--   says which bits a writer holds; Flush is about the flushing operations.
-- - Bitio/Source: an `io.Reader`, which is not this program's: a list of the pieces that its calls
--   hand out, with the error of its last call.
-- - Bitio/Reader: internal/bitio/reader.go, `Reader` as a record with its source, buffer, register
--   and taps; Reader/Read holds the reads. Pending says which bits a reader is still to serve.
-- - Bitio/RoundTrip: an encoder against a decoder, composed field by field.
-- - Meta/StreamInfo: `EncodeStreamInfo` (internal/meta/encode.go), `readStreamInfo` and
--   `DecodeStreamInfo` (internal/meta/streaminfo.go).
-- - Meta/SeekTable, Meta/VorbisComment, Meta/Blocks: internal/meta/seektable.go, vorbiscomment.go and
--   `ReadMetadata` of meta.go in the same directory.
-- - Frame/CodedNumber: `writeUTF8` (internal/frame/header_encode.go) and `readCodedNumber`
--   (internal/frame/header.go).
-- - Frame/Header: the codes of block size, sample rate and bit depth (`blockSizeCode`,
--   `sampleRateCode`, `bitDepthCode` and their decoders). Header/Fields: `writeFrameHeader` and
--   `readHeaderBody` before the CRC-8, in the same files.
-- - Rice: `WritePlanned`, `WritePlanned64` (internal/rice/encode.go) and `DecodeResidual`
--   (internal/rice/rice.go), one model for both sample types. Rice/Choice: `planPartition`,
--   `bestParam` and `feasiblePmax` of encode.go. Crc: internal/crc/crc.go.
-- - Signed: two's-complement words of any width, with the shifts, sums and comparisons of Go's
--   `int32` and `int64`, and `Fits` for a sample in so many bits.
-- - I32: `diffGo`, `cumsumGo`, `lpcResidualEncodeGo`, `lpcRestoreGo` and the stereo kernels
--   (internal/i32/i32_go.go), `restoreI32` (internal/i32/restore.go). I32/Narrow: the `int32`
--   recurrence and the test that it may run (internal/i32/lpc.go, lpc_small_narrow.go).
--   I32/Unrolled: `lpcRestoreScalar` of lpc_small.go and `lpcRestoreScalarNarrow`, the kernels of all
--   orders as one definition each. I32/Range: `MinMax` (internal/i32/minmax.go).
-- - Lpc: internal/lpc/lpc.go and encode.go at 32 and 64 bits; Lpc/Dispatch: internal/lpc/simd.go.
-- - Frame/Subframe: internal/frame/subframe.go, `decodeSubframe` and `decodeSubframe64` as one
--   definition with the width of a sample as an argument; Frame/Subframe/Write: the writers of
--   internal/frame/subframe_encode.go and its tests on samples and residuals.
-- - Frame/Decorrelate: internal/frame/decorrelate.go on `int32`; Frame/Decode/Stereo64: on `int64`.
-- - Frame/Decode: internal/frame/frame.go. Frame/Encode: internal/frame/encode.go, with the plans of
--   the candidate channels as an argument.
-- - Tests: runs at concrete inputs.
--
-- Correspondence. A Go method with a pointer receiver takes the record last and returns it; a
-- method that may fail is a function into `Run`, chained by do blocks. A `uint64` is a native
-- number with its wrap-around written out; a slice of bytes is a list of numbers, of which only the
-- value modulo 256 is used where the model loads a byte. An `int` that is never negative is a native
-- number. Errors stand for their sentinel, since callers look through the wrapping.
--
-- Fuel. The loop of `fill` has 8 rounds of 8 bits, which pass 56; the loop of `readMore` counts the
-- 100 empty reads of the source's own bound; `ReadBits` calls itself once, with 7 bits at most; the
-- loop of `ReadUnary` takes a bit at least in each round, and the loop of `readMetadata` 32; both
-- get one round more than the bits of register, buffer and source. The error `stuck` stands for fuel that ran out.
--
-- Parameters. `checksum16` stands for the CRC-16 that internal/crc takes from a package outside the
-- repository, and `ceiling` for the highest order that an architecture restores with its own narrow
-- kernels (`maxScalarRestoreOrderNarrow`). A plan of a subframe is an argument of its writer, and
-- `IsWritten` says that the plan describes the samples: the choice of a plan is no part of the model.
--
-- Not modelled: `planSubframe` with the choice of orders and of wasted bits, the search over Rice
-- partition orders, the floating-point analysis for linear prediction, resynchronisation, the pcm
-- package, CPU dispatch and assembly, the command line, lint rules.
pub mod Prelude
pub mod Bitstream
pub mod Errors
pub mod Bitio
pub mod Meta
pub mod Frame
pub mod Rice
pub mod I32
pub mod Lpc
pub mod Signed
pub mod Crc
mod Tests

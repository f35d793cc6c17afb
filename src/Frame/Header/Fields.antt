-- ===== src/Frame/Header/Fields.antt =====
-- The frame header up to its CRC-8: the calls of `writeFrameHeader`
-- (internal/frame/header_encode.go) before `Checksum8`, and `readHeaderBody`
-- (internal/frame/header.go) before the comparison.
pub mod RoundTrip
use go_flac.Prelude.{
  ◌+◌, ◌&&◌, ℕ, Bool, true, false, Option, none, some, leb, ◌==◌, not, if◌then◌else◌,
}
use go_flac.Errors.{no_clean_end, unsupported}
use go_flac.Bitio.Writer.{Writer, write_bits}
use go_flac.Bitio.Reader.{Reader, Run, ok, err, M, ◌>>=◌, pure, fail}
use go_flac.Bitio.Reader.Read.{read_bits}
use go_flac.Meta.StreamInfo.{StreamInfo}
use go_flac.Frame.CodedNumber.{write_utf8, read_coded_number}
use go_flac.Frame.Header.{
  FieldCode, write_ext, sample_rate_code, bit_depth_code, block_size_code, decode_block_size,
  decode_sample_rate, decode_bits_per_sample,
}

abbrev pub sync_code : ℕ
sync_code = 0x3ffe

-- `header`; a reader that fails gives none back.
pub record Header : Type 0 where
  pub variable_block_size : Bool
  pub block_size : ℕ
  pub sample_rate : ℕ
  pub channel_assignment : ℕ
  pub bits_per_sample : ℕ
  pub number : ℕ

-- The channel count that the assignment implies.
unfoldable pub channels : Header → ℕ
channels hdr =
    if leb 8 hdr.channel_assignment && leb hdr.channel_assignment 10
    then 2
    else hdr.channel_assignment + 1

-- The calls on the writer, once the codes are known.
unfoldable pub write_codes : FieldCode → FieldCode → ℕ → ℕ → ℕ → Writer → Writer
write_codes bs sr ch_code depth_code frame_num w = write_ext sr (
    write_ext bs (
      write_utf8 frame_num (
        write_bits 0 1 (
          write_bits depth_code 3 (
            write_bits ch_code 4 (
              write_bits sr.code 4 (
                write_bits bs.code 4
                  (write_bits 0 1 (write_bits 0 1 (write_bits sync_code 14 w))))))))))

unfoldable pub write_with_rate : Option FieldCode → ℕ → ℕ → ℕ → ℕ → Option (Writer → Writer)
unfolding write_codes
write_with_rate none block_size ch_code bit_depth frame_num = none
write_with_rate (some sr) block_size ch_code bit_depth frame_num =
    some (write_codes (block_size_code block_size) sr ch_code (bit_depth_code bit_depth) frame_num)

-- `none` where `sampleRateCode` panics.
unfoldable pub write_header_fields : ℕ → ℕ → ℕ → ℕ → ℕ → Option (Writer → Writer)
unfolding write_with_rate
write_header_fields block_size ch_code sample_rate bit_depth frame_num =
    write_with_rate (sample_rate_code sample_rate) block_size ch_code bit_depth frame_num

-- An early return of an error.
abbrev pub reject_if : {A : Type 0} → Bool → M A → M A
reject_if bad d = if bad then fail unsupported else d

abbrev pub with_end : {A : Type 0} → Run A → Run A
with_end (ok a b) = ok a b
with_end (err e b) = err (no_clean_end e) b

-- The deferred translation: past the sync code, an end of file is a truncated header.
unfoldable pub committed : {A : Type 0} → M A → M A
committed d b = with_end (d b)

-- The number, and the fields that the codes stand for.
unfoldable pub read_values : StreamInfo → Bool → ℕ → ℕ → ℕ → ℕ → M Header
read_values si variable bs_code sr_code ch_code bps_code = do
  number ← read_coded_number
  block_size ← decode_block_size bs_code
  sample_rate ← decode_sample_rate sr_code si
  bps ← decode_bits_per_sample bps_code si
  pure (record {
    variable_block_size = variable;
    block_size = block_size;
    sample_rate = sample_rate;
    channel_assignment = ch_code;
    bits_per_sample = bps;
    number = number;
  })

-- The codes, after the reserved bit that follows the sync code.
unfoldable pub read_codes : StreamInfo → M Header
unfolding read_values
read_codes si = do
  bs ← read_bits 1
  bs_code ← read_bits 4
  sr_code ← read_bits 4
  ch_code ← read_bits 4
  bps_code ← read_bits 3
  r ← read_bits 1
  reject_if (not (r == 0))
      (reject_if (leb 11 ch_code) (read_values si (bs == 1) bs_code sr_code ch_code bps_code))

unfoldable pub read_header_fields : StreamInfo → M Header
unfolding read_codes committed
read_header_fields si = do
  sync ← read_bits 14
  reject_if (not (sync == sync_code))
      (committed (read_bits 1 >>= λ r. reject_if (not (r == 0)) (read_codes si)))

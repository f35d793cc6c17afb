-- ===== src/Frame/Header.antt =====
-- The fields of a frame header: the codes of internal/frame/header_encode.go, and their decoders in
-- internal/frame/header.go.
pub mod Codes
pub mod Fields
use go_flac.Prelude.{
  ℕ, zero, suc, ◌+◌, ◌-◌, ◌*◌, ◌/◌, ◌%◌, ◌^◌, Option, none, some, List, [], ◌∷◌, get_or, Bool, ◌&&◌,
  ltb, leb, ◌==◌, if◌then◌else◌,
}
use go_flac.Prelude.Word.{sub64}
use go_flac.Errors.{unsupported}
use go_flac.Bitio.Writer.{Writer, write_bits}
use go_flac.Bitio.Reader.{M, ◌>>=◌, pure, fail}
use go_flac.Bitio.Reader.Read.{read_bits}
use go_flac.Meta.StreamInfo.{StreamInfo}

-- A code, and the value at the end of the header that it announces: `(code, extN, extV int)`.
pub record FieldCode : Type 0 where
  pub code : ℕ
  pub ext_n : ℕ
  pub ext_v : ℕ

abbrev pub direct : ℕ → FieldCode
direct c = record { code = c; ext_n = 0; ext_v = 0 }

abbrev pub escaped : ℕ → ℕ → ℕ → FieldCode
escaped c n v = record { code = c; ext_n = n; ext_v = v }

-- `if extN > 0 { bw.WriteBits(uint64(extV), uint(extN)) }`
unfoldable pub write_ext : FieldCode → Writer → Writer
write_ext c = if ltb 0 c.ext_n then write_bits c.ext_v c.ext_n else λ w. w

-- The `switch` of `sampleRateCode` on the standard rates, and 0 for the others.
unfoldable pub standard_rate_code : ℕ → ℕ
standard_rate_code sr =
    if sr == 88200
    then 1
    else if sr == 176400
    then 2
    else if sr == 192000
    then 3
    else if sr == 8000
    then 4
    else if sr == 16000
    then 5
    else if sr == 22050
    then 6
    else if sr == 24000
    then 7
    else if sr == 32000
    then 8
    else if sr == 44100
    then 9
    else if sr == 48000
    then 10
    else if sr == 96000
    then 11
    else 0

unfoldable pub escaped_rate_code : ℕ → FieldCode
escaped_rate_code sr =
    if sr % 1000 == 0 && leb (sr / 1000) 0xff
    then escaped 12 8 (sr / 1000)
    else if leb sr 0xffff
    then escaped 13 16 sr
    else if sr % 10 == 0 && leb (sr / 10) 0xffff
    then escaped 14 16 (sr / 10)
    else direct 0

-- `none` where the source panics.
unfoldable pub sample_rate_code : ℕ → Option FieldCode
unfolding standard_rate_code escaped_rate_code
sample_rate_code sr =
    if sr == 0
    then none
    else some (
        if standard_rate_code sr == 0 then escaped_rate_code sr else direct (standard_rate_code sr))

unfoldable pub bit_depth_code : ℕ → ℕ
bit_depth_code bps =
    if bps == 8
    then 1
    else if bps == 12
    then 2
    else if bps == 16
    then 4
    else if bps == 20
    then 5
    else if bps == 24
    then 6
    else if bps == 32
    then 7
    else 0

-- The `switch` of `blockSizeCode`, and 0 where it has no case.
unfoldable pub standard_block_code : ℕ → ℕ
standard_block_code bs =
    if bs == 192
    then 1
    else if bs == 576
    then 2
    else if bs == 1152
    then 3
    else if bs == 2304
    then 4
    else if bs == 4608
    then 5
    else if bs == 256
    then 8
    else if bs == 512
    then 9
    else if bs == 1024
    then 10
    else if bs == 2048
    then 11
    else if bs == 4096
    then 12
    else if bs == 8192
    then 13
    else if bs == 16384
    then 14
    else if bs == 32768
    then 15
    else 0

-- The test is `bs-1 <= 0xFF` on an `int`.
unfoldable pub block_size_code : ℕ → FieldCode
unfolding standard_block_code
block_size_code bs =
    if standard_block_code bs == 0
    then (if leb bs 0x100 then escaped 6 8 (sub64 bs 1) else escaped 7 16 (sub64 bs 1))
    else direct (standard_block_code bs)

unfoldable pub decode_block_size : ℕ → M ℕ
decode_block_size code =
    if code == 0
    then fail unsupported
    else if code == 1
    then pure 192
    else if leb 2 code && leb code 5
    then pure (576 * 2 ^ (code - 2))
    else if code == 6
    then (do v ← read_bits 8; pure (v + 1))
    else if code == 7
    then (do v ← read_bits 16; pure (v + 1))
    else pure (256 * 2 ^ (code - 8))

-- `sampleRateTable`, with the unused index 0.
abbrev pub sample_rate_table : List ℕ
sample_rate_table =
    0 ∷ 88200 ∷ 176400 ∷ 192000 ∷ 8000 ∷ 16000 ∷ 22050 ∷ 24000 ∷ 32000 ∷ 44100 ∷ 48000 ∷ 96000 ∷ []

unfoldable pub decode_sample_rate : ℕ → StreamInfo → M ℕ
decode_sample_rate code si =
    if code == 0
    then pure si.sample_rate
    else if leb 1 code && leb code 11
    then pure (get_or sample_rate_table code 0)
    else if code == 12
    then (do v ← read_bits 8; pure (v * 1000))
    else if code == 13
    then (do v ← read_bits 16; pure v)
    else if code == 14
    then (do v ← read_bits 16; pure (v * 10))
    else fail unsupported

unfoldable pub decode_bits_per_sample : ℕ → StreamInfo → M ℕ
decode_bits_per_sample code si =
    if code == 0
    then pure si.bit_depth
    else if code == 1
    then pure 8
    else if code == 2
    then pure 12
    else if code == 4
    then pure 16
    else if code == 5
    then pure 20
    else if code == 6
    then pure 24
    else if code == 7
    then pure 32
    else fail unsupported

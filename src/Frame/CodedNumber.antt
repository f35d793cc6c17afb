-- ===== src/Frame/CodedNumber.antt =====
-- FLAC's extended UTF-8 coded numbers: `writeUTF8` (internal/frame/header_encode.go) and
-- `readCodedNumber` (internal/frame/header.go).
pub mod Lead
pub mod RoundTrip
use go_flac.Prelude.{
  ℕ, zero, suc, ◌+◌, ◌-◌, ◌*◌, ◌/◌, ◌%◌, ◌^◌, Option, none, some, ltb, ◌==◌, if◌then◌else◌, bit_and,
  bit_or, bit_xor,
}
use go_flac.Prelude.Word.{shl64, shr, byte}
use go_flac.Errors.{unsupported}
use go_flac.Bitio.Writer.{Writer, write_bits}
use go_flac.Bitio.Reader.{M, ◌>>=◌, pure, fail}
use go_flac.Bitio.Reader.Read.{read_bits}

-- The number of bytes of the code of `v`, for `v` from 0x80 on.
unfoldable pub code_length : ℕ → ℕ
code_length v =
    if ltb v 0x800
    then 2
    else if ltb v 0x10000
    then 3
    else if ltb v 0x200000
    then 4
    else if ltb v 0x4000000
    then 5
    else if ltb v 0x80000000
    then 6
    else 7

-- `byte(0xFF << (8 - n))`
abbrev pub lead : ℕ → ℕ
lead n = byte (shl64 0xff (8 - n))

-- `lead|(hi&^lead)`
abbrev pub with_lead : ℕ → ℕ → ℕ
with_lead n hi = bit_or (lead n) (bit_and hi (bit_xor (lead n) 0xff))

-- The continuation bytes, for `i` from `k - 1` down to 0.
unfoldable pub write_continuation : ℕ → ℕ → Writer → Writer
write_continuation zero v = λ w. w
write_continuation (suc i) v =
    λ w. write_continuation i v (write_bits (bit_or 0x80 (byte (bit_and (shr v (6 * i)) 0x3f))) 8 w)

unfoldable pub write_utf8 : ℕ → Writer → Writer
write_utf8 v =
    if ltb v 0x80
    then write_bits v 8
    else (let n = code_length v in
        λ w.
          write_continuation (n - 1) v (write_bits (with_lead n (byte (shr v (6 * (n - 1))))) 8 w))

-- The length that the leading ones of the first byte give.
unfoldable pub lead_length : ℕ → Option ℕ
lead_length b0 =
    if bit_and b0 0xe0 == 0xc0
    then some 2
    else if bit_and b0 0xf0 == 0xe0
    then some 3
    else if bit_and b0 0xf8 == 0xf0
    then some 4
    else if bit_and b0 0xfc == 0xf8
    then some 5
    else if bit_and b0 0xfe == 0xfc
    then some 6
    else if b0 == 0xfe
    then some 7
    else none

-- The loop over the continuation bytes.
unfoldable pub read_continuation : ℕ → ℕ → M ℕ
read_continuation zero val = pure val
read_continuation (suc k) val = do
  c ← read_bits 8
  let next = read_continuation k (bit_or (shl64 val 6) (bit_and c 0x3f))
  if bit_and c 0xc0 == 0x80 then next else fail unsupported

unfoldable pub read_tail : ℕ → Option ℕ → M ℕ
read_tail b0 none = fail unsupported
read_tail b0 (some n) = read_continuation (n - 1) (bit_and b0 (shr 0x7f n))

unfoldable pub read_coded_number : M ℕ
unfolding read_tail
read_coded_number = do
  b0 ← read_bits 8
  if ltb b0 0x80 then pure b0 else read_tail b0 (lead_length b0)

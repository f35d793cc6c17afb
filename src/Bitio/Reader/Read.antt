-- ===== src/Bitio/Reader/Read.antt =====
-- internal/bitio/reader.go: filling the register and reading bits, signed values and unary codes.
use go_flac.Prelude.{
  ℕ, zero, suc, ◌+◌, ◌-◌, ◌*◌, ◌/◌, ◌%◌, ◌^◌, List, [], ◌∷◌, ltb, leb, ◌==◌, ◌&&◌, if◌then◌else◌,
  bit_and, bit_or, Option, none, some, length, take, drop, get_or,
}
use go_flac.Prelude.Word.{shl64, shr, byte}
use go_flac.Errors.{Error, stuck, no_clean_end}
use go_flac.Bitio.Source
use go_flac.Bitio.Reader.{Reader, Run, ok, err, M, ◌>>=◌, pure, read_more, tap_consumed}

-- `binary.BigEndian.Uint64`, at any number of bytes.
unfoldable pub of_bytes : List ℕ → ℕ
of_bytes [] = 0
of_bytes (b ∷ bs) = byte b * 2 ^ (length bs * 8) + of_bytes bs

-- One byte goes into the slot just below the valid bits.
unfoldable pub load_byte : Reader → Reader
load_byte b = record b {
  acc = bit_or b.acc (shl64 (byte (get_or b.buf b.r 0)) (56 - b.nbits));
  r = b.r + 1;
  loaded = b.loaded + 1;
  nbits = b.nbits + 8;
}

-- A round of the loop of `fill`: more bytes if none is left to load.
unfoldable pub ready : Reader → Reader
unfolding read_more
ready b = if leb (length b.buf) b.r then read_more b else b

-- The loop of `fill`. Each round adds 8 bits, so 8 rounds pass 56.
unfoldable pub fill_loop : ℕ → Reader → Reader
unfolding ready load_byte
fill_loop zero b = b
fill_loop (suc k) b =
    let b' = ready b in
    let rest = fill_loop k (load_byte b') in
    if leb b.nbits 56 then (if leb (length b'.buf) b'.r then b' else rest) else b

unfoldable pub load_word : Reader → Reader
unfolding of_bytes
load_word b = record b {
  acc = of_bytes (take 8 (drop b.r b.buf));
  r = b.r + 8;
  loaded = b.loaded + 8;
  nbits = 64;
}

unfoldable pub fill : Reader → Reader
unfolding fill_loop load_word
fill b = if b.nbits == 0 && leb 8 (length b.buf - b.r) then load_word b else fill_loop 8 b

-- Takes `n` bits off the register, for `n` up to `nbits`.
unfoldable pub consume : ℕ → Reader → Reader
unfolding tap_consumed
consume n b = tap_consumed (record b { acc = shl64 b.acc n; nbits = b.nbits - n })

unfoldable pub serve : ℕ → M ℕ
unfolding consume
serve n b = ok (shr b.acc (64 - n)) (consume n b)

-- The end of `readBitsSlow`: the source has no more bits than the register holds.
unfoldable pub exhausted : Error → M ℕ
exhausted e b = if b.nbits == 0 then err e b else err (no_clean_end e) b

-- `hi<<(n-got) | lo`; an end of file within the value is no clean end.
unfoldable pub join_halves : ℕ → ℕ → Run ℕ → Run ℕ
join_halves hi m (ok lo b) = ok (bit_or (shl64 hi m) lo) b
join_halves hi m (err e b) = err (no_clean_end e) b

-- The register's rest is the high part; the low part comes after a refill, by `again`.
unfoldable pub read_split : (ℕ → M ℕ) → ℕ → M ℕ
unfolding tap_consumed join_halves
read_split again n b =
    join_halves (shr b.acc (64 - b.nbits)) (n - b.nbits)
      (again (n - b.nbits) (tap_consumed (record b { acc = 0; nbits = 0 })))

-- Fewer than `n` bits after filling: by whether more data exists.
unfoldable pub read_short : (ℕ → M ℕ) → ℕ → Option Error → M ℕ
unfolding read_split exhausted
read_short again n none b = read_split again n b
read_short again n (some e) b = exhausted e b

unfoldable pub read_bits_slow : (ℕ → M ℕ) → ℕ → M ℕ
unfolding fill serve read_short
read_bits_slow again n b =
    let f = fill b in if leb n f.nbits then serve n f else read_short again n f.error f

-- `ReadBits`, with `k` nested calls at most.
unfoldable pub read_bits_upto : ℕ → ℕ → M ℕ
unfolding read_bits_slow
read_bits_upto zero n b = err stuck b
read_bits_upto (suc k) n b =
    let slow = read_bits_slow (read_bits_upto k) n b in if leb n b.nbits then serve n b else slow

-- `ReadBits`. The nested call asks for 7 bits at most of an empty register, and makes no other.
unfoldable pub read_bits : ℕ → M ℕ
unfolding read_bits_upto
read_bits n b = read_bits_upto 2 n b

-- The bit pattern of the `int64` that `n` bits stand for, by a shift to the top and an
-- arithmetic shift back.
unfoldable pub sign_extend : ℕ → ℕ → ℕ
sign_extend n u =
    let top = shl64 u (64 - n) in
    if ltb top (2 ^ 63) then shr top (64 - n) else shr top (64 - n) + (2 ^ 64 - 2 ^ n)

unfoldable pub read_signed : ℕ → M ℕ
read_signed n = if n == 0 then pure 0 else (do u ← read_bits n; pure (sign_extend n u))

-- `bits.LeadingZeros64` on the low `k` bits of a word.
unfoldable pub leading_zeros : ℕ → ℕ → ℕ
leading_zeros zero x = 0
leading_zeros (suc k) x = if x / 2 ^ k % 2 == 1 then 0 else suc (leading_zeros k x)

-- A refill of an empty register.
unfoldable pub top_up : Reader → Reader
top_up b = if b.nbits == 0 then fill b else b

-- The loop of `ReadUnary`, with `k` rounds at most.
unfoldable pub unary_loop : ℕ → ℕ → M ℕ
unary_loop zero count b = err stuck b
unary_loop (suc k) count b =
    let f = top_up b in
    let lz = leading_zeros 64 f.acc in
    let rest = unary_loop k (count + f.nbits) (tap_consumed (record f { acc = 0; nbits = 0 })) in
    if f.nbits == 0
    then (elim f.error [ some e ↦ err e f | none ↦ err stuck f ])
    else if leb f.nbits lz
    then rest
    else ok (count + lz) (consume (lz + 1) f)

-- Each round takes a bit at least, so that the bits of the register, the buffer and the source
-- bound the rounds.
unfoldable pub read_unary : M ℕ
read_unary b = unary_loop (b.nbits + (length b.buf + Source.size b.src) * 8 + 1) 0 b

unfoldable pub skip_to_byte_boundary : Reader → Reader
unfolding consume
skip_to_byte_boundary b = let rem = bit_and b.nbits 7 in if rem == 0 then b else consume rem b

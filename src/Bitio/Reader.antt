-- ===== src/Bitio/Reader.antt =====
-- internal/bitio/reader.go: `Reader` reads bits, most significant first, through a block buffer
-- and a 64-bit register; the reads themselves are in the child `Read`. `buf` holds the valid bytes `buf[:w]` of the block of `size` bytes, so
-- that `w` is its length; an element stands for the byte that it is mod 256.
pub mod Read
pub mod Pending
pub mod Fill
pub mod Refill
pub mod Serve
pub mod Zeros
pub mod Unary
pub mod Reads
pub mod Every
use go_flac.Prelude.{
  ℕ, zero, suc, ◌+◌, ◌-◌, ◌*◌, ◌/◌, ◌%◌, ◌^◌, ◌<◌, List, [], ◌∷◌, ◌++◌, ltb, leb, ◌==◌, ◌&&◌, max,
  if◌then◌else◌, bit_and, bit_or, Option, none, some, Bool, true, false, length, take, drop, get_or,
}
use go_flac.Prelude.Word.{shl64, shr, sub64, byte}
use go_flac.Errors.{Error, eof, unexpected_eof, no_progress, stuck, no_clean_end}
use go_flac.Bitio.Source
use go_flac.Bitio.Source.{Source, read}

-- `tapping` is `tap != nil`, `ranged` is `rtap != nil`, and `tapped` holds the bytes handed to
-- the tap since it was installed, by either of its methods.
pub record Reader : Type 0 where
  pub src : Source
  pub buf : List ℕ
  pub size : ℕ
  pub r : ℕ
  pub acc : ℕ
  pub nbits : ℕ
  pub tapping : Bool
  pub ranged : Bool
  pub tap_cur : ℕ
  pub tapped : List ℕ
  pub loaded : ℕ
  pub base_pos : ℕ
  pub error : Option Error

-- A Go call that returns a value or an error, with the reader that it leaves.
pub data Run {ℓ} (A : Type ℓ) : Type ℓ where
  ok : A → Reader → Run A
  err : Error → Reader → Run A

abbrev pub M {ℓ} : Type ℓ → Type ℓ
M A = Reader → Run A

abbrev pub and_then {ℓ κ} : {A : Type ℓ} {B : Type κ} → Run A → (A → M B) → Run B
and_then (ok a b) f = f a b
and_then (err e b) f = err e b

infixl 5 ◌>>=◌ ◌>>◌
abbrev pub ◌>>=◌ {ℓ κ} : {A : Type ℓ} {B : Type κ} → M A → (A → M B) → M B
◌>>=◌ m f b = and_then (m b) f

abbrev pub ◌>>◌ {ℓ κ} : {A : Type ℓ} {B : Type κ} → M A → M B → M B
m >> k = m >>= λ _. k

abbrev pub pure {ℓ} : {A : Type ℓ} → A → M A
pure a b = ok a b

abbrev pub fail {ℓ} : {A : Type ℓ} → Error → M A
fail e b = err e b

abbrev pub read_block : ℕ
read_block = 2 ^ 13

abbrev pub min_read_block : ℕ
min_read_block = 16

abbrev pub max_empty_reads : ℕ
max_empty_reads = 100

unfoldable pub new_reader_size : Source → ℕ → Reader
new_reader_size src size = record {
  src = src;
  buf = [];
  size = max size min_read_block;
  r = 0;
  acc = 0;
  nbits = 0;
  tapping = false;
  ranged = false;
  tap_cur = 0;
  tapped = [];
  loaded = 0;
  base_pos = 0;
  error = none;
}

unfoldable pub new_reader : Source → Reader
unfolding new_reader_size
new_reader src = new_reader_size src read_block

-- The buffer of a reader that was never built has no length yet.
unfoldable pub reset : Source → Reader → Reader
unfolding new_reader
reset src b = record (new_reader src) { size = if b.size == 0 then read_block else b.size }

unfoldable pub reset_at : Source → ℕ → Reader → Reader
unfolding reset
reset_at src pos b = record (reset src b) { base_pos = pos }

-- Byte and bit positions: `nbits` never exceeds `r * 8` bits that were loaded from `buf`.
unfoldable pub consumed_bytes : Reader → ℕ
consumed_bytes b = (b.r * 8 - b.nbits) / 8

unfoldable pub byte_aligned : Reader → Bool
byte_aligned b = bit_and b.nbits 7 == 0

unfoldable pub bytes_read : Reader → ℕ
bytes_read b = b.base_pos + (b.loaded * 8 - b.nbits) / 8

-- `rangeable` says whether the tap also takes ranges. A new tap has seen nothing.
unfoldable pub set_tapper : Bool → Reader → Reader
unfolding consumed_bytes
set_tapper rangeable b = record b {
  tapping = true;
  ranged = rangeable;
  tap_cur = consumed_bytes b;
  tapped = [];
}

unfoldable pub clear_tapper : Reader → Reader
clear_tapper b = record b { tapping = false; ranged = false }

unfoldable pub switch_tap_to_deferred : Reader → Reader
switch_tap_to_deferred b = if b.ranged then record b { tapping = false } else b

-- Hands `buf[tapCur:fc]` to the tap; `emitTaps` does so byte by byte, `TapBytes` at once.
unfoldable pub emit_taps : ℕ → Reader → Reader
emit_taps fc b = record b {
  tapped = b.tapped ++ take (fc - b.tap_cur) (drop b.tap_cur b.buf);
  tap_cur = fc;
}

unfoldable pub flush_tap : Reader → Reader
unfolding emit_taps consumed_bytes
flush_tap b =
    if b.ranged && ltb b.tap_cur (consumed_bytes b) then emit_taps (consumed_bytes b) b else b

-- The gate that each read has before `emitTaps`.
unfoldable pub tap_consumed : Reader → Reader
unfolding emit_taps consumed_bytes
tap_consumed b =
    if b.tapping && ltb b.tap_cur (consumed_bytes b) then emit_taps (consumed_bytes b) b else b

-- A round of the reading loop of `readMore`, on what `Read` returned: the loop goes on only after
-- an empty read without an error.
unfoldable pub refill_step : (Reader → Reader) → Reader → List ℕ × Option Error × Source → Reader
refill_step again b (bs, some e, s) = record b { src = s; buf = b.buf ++ bs; error = some e }
refill_step again b (bs, none, s) =
    let b' : Reader = record b { src = s; buf = b.buf ++ bs; error = none } in
    let rest = again b' in if ltb 0 (length bs) then b' else rest

-- The loop, with `left` empty reads before it gives up. It starts without an error.
unfoldable pub refill_loop : ℕ → Reader → Reader
unfolding refill_step
refill_loop zero b = record b { error = some no_progress }
refill_loop (suc left) b = refill_step (refill_loop left) b (read (b.size - length b.buf) b.src)

-- Drops the bytes consumed; `tapCur` stops at 0, as the source's test makes it.
unfoldable pub compact : Reader → Reader
unfolding consumed_bytes
compact b =
    let fc = consumed_bytes b in
    record b { buf = drop fc b.buf; r = b.r - fc; tap_cur = b.tap_cur - fc }

unfoldable pub refill : Reader → Reader
unfolding refill_loop
refill c = if ltb (length c.buf) c.size then refill_loop max_empty_reads c else c

-- An error is sticky: nothing is read after one.
unfoldable pub unless_failed : Option Error → Reader → Reader
unless_failed (some e) b = b
unless_failed none b = refill (compact (flush_tap b))

unfoldable pub read_more : Reader → Reader
unfolding unless_failed
read_more b = unless_failed b.error b

-- ===== src/Bitio/Writer.antt =====
-- internal/bitio/writer.go: `Writer` packs bits, most significant first, into a byte buffer.
-- `Grow` only reserves capacity, which a list has not.
pub mod Contents
pub mod Flush
use go_flac.Prelude.{
  ℕ, zero, suc, ◌+◌, ◌-◌, ◌*◌, ◌/◌, ◌%◌, ◌^◌, ◌<◌, ◌≡◌, List, [], ◌∷◌, ◌++◌, ltb, leb, ◌==◌,
  if◌then◌else◌, bit_and, bit_or,
}
use go_flac.Prelude.Word.{shl64, shr, sub64, byte}
use go_flac.Bitstream.{be_bytes}

-- `acc` holds the pending bits at its top; `nbit` counts them and stays below 64.
pub record Writer : Type 0 where
  pub buf : List ℕ
  pub acc : ℕ
  pub nbit : ℕ

unfoldable pub new_writer : Writer
new_writer = record { buf = []; acc = 0; nbit = 0 }

-- Called when the register is exactly full.
unfoldable pub flush_word : Writer → Writer
flush_word w = record w { buf = w.buf ++ be_bytes 8 w.acc; acc = 0 }

-- `(1 << n) - 1` on a `uint64`.
abbrev pub low_mask : ℕ → ℕ
low_mask n = sub64 (shl64 1 n) 1

-- The branch of `WriteBits` that completes the register: `v` is masked already.
unfoldable pub write_over : Writer → ℕ → ℕ → ℕ → Writer
unfolding flush_word
write_over w v n free =
    let full = flush_word (record w { acc = bit_or w.acc (shr v (n - free)) }) in
    let rem = n - free in
    record full { acc = if ltb 0 rem then shl64 v (64 - rem) else full.acc; nbit = rem }

unfoldable pub write_bits : ℕ → ℕ → Writer → Writer
unfolding write_over
write_bits v n w =
    if n == 0
    then w
    else (let v' = bit_and v (low_mask n) in
        let free = 64 - w.nbit in
        if ltb n free
        then record w { acc = bit_or w.acc (shl64 v' (free - n)); nbit = w.nbit + n }
        else write_over w v' n free)

-- The loop of `flushFull`, with `k` rounds at most.
unfoldable pub flush_loop : ℕ → Writer → Writer
flush_loop zero w = w
flush_loop (suc k) w =
    let rest = flush_loop k (record {
      buf = w.buf ++ (byte (shr w.acc 56) ∷ []);
      acc = shl64 w.acc 8;
      nbit = w.nbit - 8;
    }) in
    if leb 8 w.nbit then rest else w

-- `nbit` is below 64, so that 8 rounds are enough.
unfoldable pub flush_full : Writer → Writer
unfolding flush_loop
flush_full w = flush_loop 8 w

-- `v` is the two's complement bit pattern of the `int64`.
unfoldable pub write_signed_bits : ℕ → ℕ → Writer → Writer
unfolding write_bits
write_signed_bits v n w = write_bits (bit_and v (low_mask n)) n w

-- The loop of `WriteUnary`, with `k` rounds at most.
unfoldable pub unary_loop : ℕ → ℕ → Writer → Writer
unfolding write_bits
unary_loop zero q w = write_bits 1 (q + 1) w
unary_loop (suc k) q w =
    let rest = unary_loop k (q - 32) (write_bits 0 32 w) in
    if leb 32 q then rest else write_bits 1 (q + 1) w

-- Each round takes 32 off, so `q / 32` rounds are enough.
unfoldable pub write_unary : ℕ → Writer → Writer
unfolding unary_loop
write_unary q w = unary_loop (q / 32) q w

unfoldable pub align_byte : Writer → Writer
unfolding flush_full
align_byte w =
    let f = flush_full w in
    if ltb 0 f.nbit
    then record { buf = f.buf ++ (byte (shr f.acc 56) ∷ []); acc = 0; nbit = 0 }
    else f

-- `Bytes` flushes the writer and returns its buffer.
unfoldable pub bytes : Writer → List ℕ × Writer
unfolding flush_full
bytes w = let f = flush_full w in (f.buf, f)

unfoldable pub reset : Writer → Writer
reset w = record { buf = []; acc = 0; nbit = 0 }

-- ===== src/Rice.antt =====
-- internal/rice: the partitioned Rice coding of residuals, `DecodeResidual` (rice.go) and
-- `WritePlanned`, `WritePlanned64` (encode.go). A residual is the two's complement pattern of a
-- sample type of `w` bits: 32 or 64, as the generic functions have it.
pub mod Fold
pub mod Samples
pub mod Words
pub mod Symbol
pub mod Raw
pub mod Partition
pub mod RoundTrip
pub mod Choice
use go_flac.Prelude.{
  ℕ, zero, suc, ◌+◌, ◌-◌, ◌*◌, ◌/◌, ◌%◌, ◌^◌, List, [], ◌∷◌, ◌++◌, Bool, ltb, leb, ◌==◌, not,
  if◌then◌else◌, bit_and, bit_or, bit_xor, take, drop, length,
}
use go_flac.Prelude.Word.{shl64, shr}
use go_flac.Errors.{unsupported, residual_range}
use go_flac.Bitio.Writer.{Writer, low_mask, write_bits, write_signed_bits, write_unary}
use go_flac.Bitio.Reader.{M, ◌>>=◌, pure, fail}
use go_flac.Bitio.Reader.Read.{read_bits, read_signed, read_unary}

-- `(r << 1) ^ (r >> (w - 1))`, the shift to the right being arithmetic.
unfoldable pub zigzag : ℕ → ℕ → ℕ
zigzag w r = bit_xor (r * 2 % 2 ^ w) (if ltb r (2 ^ (w - 1)) then 0 else 2 ^ w - 1)

abbrev pub zigzag64 : ℕ → ℕ
unfolding zigzag
zigzag64 r = zigzag 64 r

-- `T(int64(u>>1) ^ -int64(u&1))`
unfoldable pub unzigzag : ℕ → ℕ → ℕ
unzigzag w u = bit_xor (u / 2) (if u % 2 == 1 then 2 ^ 64 - 1 else 0) % 2 ^ w

-- `int64(r)`
unfoldable pub widen : ℕ → ℕ → ℕ
widen w r = if ltb r (2 ^ (w - 1)) then r else r + (2 ^ 64 - 2 ^ w)

unfoldable pub high_bits : ℕ → ℕ → ℕ
high_bits q k = shr q (32 - k)

-- `PartPlan`.
pub record Plan : Type 0 where
  pub escape : Bool
  pub param : ℕ
  pub raw_bits : ℕ
  pub payload : ℕ

abbrev pub escape_code : ℕ → ℕ
escape_code param_bits = if param_bits == 5 then 0x1f else 0x0f

-- One residual, of which `u` is the folded value.
unfoldable pub write_folded : ℕ → ℕ → Writer → Writer
write_folded k u =
    if leb (shr u k) (56 - k)
    then write_bits (bit_or (shl64 1 k) (bit_and u (low_mask k))) (shr u k + 1 + k)
    else (λ b. write_bits (bit_and u (low_mask k)) k (write_unary (shr u k) b))

unfoldable pub write_symbols : ℕ → ℕ → List ℕ → Writer → Writer
write_symbols w k [] = λ b. b
write_symbols w k (r ∷ rs) = λ b. write_symbols w k rs (write_folded k (zigzag w r) b)

unfoldable pub write_raws : ℕ → ℕ → List ℕ → Writer → Writer
write_raws w raw [] = λ b. b
write_raws w raw (r ∷ rs) = λ b. write_raws w raw rs (write_signed_bits (widen w r) raw b)

unfoldable pub write_partition : ℕ → ℕ → Plan → List ℕ → Writer → Writer
write_partition w param_bits pl rs =
    if pl.escape
    then (λ b.
        write_raws w pl.raw_bits rs
          (write_bits pl.raw_bits 5 (write_bits (escape_code param_bits) param_bits b)))
    else (λ b. write_symbols w pl.param rs (write_bits pl.param param_bits b))

-- The loop over the partitions: `n` residuals are in the next one, `part_len` in each later one.
unfoldable pub write_partitions : ℕ → ℕ → ℕ → ℕ → ℕ → List Plan → List ℕ → Writer → Writer
write_partitions w param_bits zero n part_len plans res = λ b. b
write_partitions w param_bits (suc m) n part_len [] res = λ b. b
write_partitions w param_bits (suc m) n part_len (pl ∷ plans) res = λ b.
    write_partitions w param_bits m part_len part_len plans (drop n res)
      (write_partition w param_bits pl (take n res) b)

-- `bits.Len` of a number of `k` bits.
unfoldable pub bit_len : ℕ → ℕ → ℕ
bit_len zero v = 0
bit_len (suc k) v = if leb (2 ^ k) v then suc k else bit_len k v

abbrev pub partition_order : List Plan → ℕ
partition_order plans = bit_len 64 (length plans) - 1

-- The subtraction stops at 0, as the source's test makes it.
unfoldable pub write_planned : ℕ → List ℕ → ℕ → ℕ → List Plan → ℕ → Writer → Writer
unfolding write_partitions bit_len
write_planned w res pred_order block_size plans param_bits = λ b.
    let po = partition_order plans in
    let part_len = block_size / 2 ^ po in
    write_partitions w param_bits (2 ^ po) (part_len - pred_order) part_len plans res
      (write_bits po 4 (write_bits (if param_bits == 5 then 1 else 0) 2 b))

-- `WritePlanned64` is the same code at `int64`.
abbrev pub write_planned64 : List ℕ → ℕ → ℕ → List Plan → ℕ → Writer → Writer
unfolding write_planned
write_planned64 res pred_order block_size plans param_bits =
    write_planned 64 res pred_order block_size plans param_bits

-- The number of bits that `WritePlanned` returns: the sums over the partitions.
unfoldable pub partition_bits : ℕ → ℕ → List Plan → ℕ
partition_bits param_bits zero plans = 0
partition_bits param_bits (suc m) [] = 0
partition_bits param_bits (suc m) (pl ∷ plans) =
    param_bits + pl.payload + partition_bits param_bits m plans

unfoldable pub written : List Plan → ℕ → ℕ
unfolding partition_bits bit_len
written plans param_bits = 2 + 4 + partition_bits param_bits (2 ^ partition_order plans) plans

-- What was decoded into `dst`, and `over`.
pub record Decoded : Type 0 where
  pub values : List ℕ
  pub over : ℕ

-- The quotient and the remainder of one residual.
unfoldable pub read_symbol : ℕ → M (ℕ × ℕ)
read_symbol k = do q ← read_unary; r ← read_bits k; pure (q, r)

unfoldable pub read_symbols : ℕ → ℕ → ℕ → ℕ → M Decoded
unfolding read_symbol
read_symbols w k zero over = pure (record { values = []; over = over })
read_symbols w k (suc n) over = do
  s ← read_symbol k
  rest ← read_symbols w k n (bit_or over (high_bits s.0 k))
  pure (record { values = unzigzag w (bit_or (shl64 s.0 k) s.1) ∷ rest.values; over = rest.over })

unfoldable pub read_raws : ℕ → ℕ → ℕ → M (List ℕ)
read_raws w raw zero = pure []
read_raws w raw (suc n) = do v ← read_signed raw; rest ← read_raws w raw n; pure (v % 2 ^ w ∷ rest)

unfoldable pub read_escaped : ℕ → ℕ → ℕ → M Decoded
unfolding read_raws
read_escaped w n over = do
  raw ← read_bits 5
  values ← read_raws w raw n
  pure (record { values = values; over = over })

unfoldable pub read_partition : ℕ → ℕ → ℕ → ℕ → M Decoded
unfolding read_escaped read_symbols
read_partition w param_bits n over = do
  param ← read_bits param_bits
  if param == escape_code param_bits then read_escaped w n over else read_symbols w param n over

-- The loop over the partitions, as in `write_partitions`.
unfoldable pub read_partitions : ℕ → ℕ → ℕ → ℕ → ℕ → ℕ → M Decoded
unfolding read_partition
read_partitions w param_bits zero n part_len over = pure (record { values = []; over = over })
read_partitions w param_bits (suc m) n part_len over = do
  p ← read_partition w param_bits n over
  rest ← read_partitions w param_bits m part_len part_len p.over
  pure (record { values = p.values ++ rest.values; over = rest.over })

-- The partitions must divide the block, and the first be no shorter than the warm-up.
unfoldable pub read_body : ℕ → ℕ → ℕ → ℕ → M (List ℕ)
unfolding read_partitions
read_body w block_size pred_order param_bits = do
  po ← read_bits 4
  let part_len = block_size / 2 ^ po
  if not (block_size % 2 ^ po == 0)
      then fail unsupported
      else if ltb part_len pred_order
      then fail unsupported
      else (read_partitions w param_bits (2 ^ po) (part_len - pred_order) part_len 0 >>= λ d.
          if d.over == 0 then pure d.values else fail residual_range)

-- The residuals `dst[predOrder:blockSize]`.
unfoldable pub decode_residual : ℕ → ℕ → ℕ → M (List ℕ)
unfolding read_body
decode_residual w block_size pred_order = do
  method ← read_bits 2
  if method == 0
      then read_body w block_size pred_order 4
      else if method == 1
      then read_body w block_size pred_order 5
      else fail unsupported

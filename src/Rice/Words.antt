-- ===== src/Rice/Words.antt =====
-- The residuals that `DecodeResidual` returns, whatever the input.
use go_flac.Prelude.{
  ℕ, zero, suc, ◌-◌, ◌/◌, ◌%◌, ◌^◌, List, [], ◌∷◌, ◌++◌, All, ltb, ◌==◌, not, if◌then◌else◌, bit_or,
}
use go_flac.Prelude.Word.{shl64}
use go_flac.Prelude.Pow.{pow-pos}
use native.Mathlib.Nat.{mod-lt}
use go_flac.Errors.{unsupported, residual_range}
use go_flac.Bitio.Reader.{M, pure, ◌>>=◌, fail}
use go_flac.Bitio.Reader.Read.{read_bits}
use go_flac.Bitio.Reader.Every.{Every, Every-then, Every-any, Every-if, Every-fail}
use go_flac.Rice.{
  Decoded, read_raws, read_symbol, read_symbols, read_escaped, read_partition, read_partitions,
  read_body, decode_residual, escape_code, unzigzag, high_bits,
}
use go_flac.Rice.Samples.{IsWord, Count, read_raws-Words}

abbrev AreWords : ℕ → Decoded → Type 0
AreWords w d = All (IsWord w) d.values

read_symbols-Words : (w k n over : ℕ) → Every (AreWords w) (read_symbols w k n over)
unfolding read_symbols unzigzag
read_symbols-Words w k zero over = λ b. tt
read_symbols-Words w k (suc n) over =
    Every-then (λ s. Unit) (AreWords w) (read_symbol k)
      (λ s. read_symbols w k n (bit_or over (high_bits s.0 k)) >>= λ rest.
        pure (record {
          values = unzigzag w (bit_or (shl64 s.0 k) s.1) ∷ rest.values;
          over = rest.over;
        }))
      (Every-any (read_symbol k))
      (λ s h.
        Every-then (AreWords w) (AreWords w) (read_symbols w k n (bit_or over (high_bits s.0 k)))
          (λ rest. pure (record {
            values = unzigzag w (bit_or (shl64 s.0 k) s.1) ∷ rest.values;
            over = rest.over;
          }))
          (read_symbols-Words w k n (bit_or over (high_bits s.0 k)))
          (λ rest words b. (mod-lt _ (pow-pos w), words)))

pub All-append : (P : ℕ → Type 0) (xs ys : List ℕ) → All P xs → All P ys → All P (xs ++ ys)
All-append P [] ys h k = k
All-append P (x ∷ xs) ys (hx, h) k = (hx, All-append P xs ys h k)

read_partition-Words : (w pb n over : ℕ) → Every (AreWords w) (read_partition w pb n over)
unfolding read_partition read_escaped
read_partition-Words w pb n over =
    Every-then (λ param. Unit) (AreWords w) (read_bits pb)
      (λ param.
        if param == escape_code pb then read_escaped w n over else read_symbols w param n over)
      (Every-any (read_bits pb))
      (λ param h.
        Every-if (AreWords w) (param == escape_code pb) (read_escaped w n over)
          (read_symbols w param n over) escaped (read_symbols-Words w param n over))
  where
    escaped : Every (AreWords w) (read_escaped w n over)
    escaped =
        Every-then (λ raw. Unit) (AreWords w) (read_bits 5)
          (λ raw. read_raws w raw n >>= λ values. pure (record { values = values; over = over }))
          (Every-any (read_bits 5))
          (λ raw h.
            Every-then (Count (IsWord w) n) (AreWords w) (read_raws w raw n)
              (λ values. pure (record { values = values; over = over })) (read_raws-Words w raw n)
              (λ values words b. words.1))

read_partitions-Words :
    (w pb m n part_len over : ℕ) → Every (AreWords w) (read_partitions w pb m n part_len over)
unfolding read_partitions
read_partitions-Words w pb zero n part_len over = λ b. tt
read_partitions-Words w pb (suc m) n part_len over =
    Every-then (AreWords w) (AreWords w) (read_partition w pb n over)
      (λ p. read_partitions w pb m part_len part_len p.over >>= λ rest.
        pure (record { values = p.values ++ rest.values; over = rest.over }))
      (read_partition-Words w pb n over)
      (λ p hp.
        Every-then (AreWords w) (AreWords w) (read_partitions w pb m part_len part_len p.over)
          (λ rest. pure (record { values = p.values ++ rest.values; over = rest.over }))
          (read_partitions-Words w pb m part_len part_len p.over)
          (λ rest hr b. All-append (IsWord w) p.values rest.values hp hr))

read_body-Words : (w size order pb : ℕ) → Every (All (IsWord w)) (read_body w size order pb)
unfolding read_body
read_body-Words w size order pb =
    Every-then (λ po. Unit) (All (IsWord w)) (read_bits 4) (λ po. rest po) (Every-any (read_bits 4))
      (λ po h.
        Every-if (All (IsWord w)) (not (size % 2 ^ po == 0)) (fail unsupported) _
          (Every-fail (All (IsWord w)) unsupported)
          (Every-if (All (IsWord w)) (ltb (size / 2 ^ po) order) (fail unsupported) _
            (Every-fail (All (IsWord w)) unsupported)
            (Every-then (AreWords w) (All (IsWord w))
              (read_partitions w pb (2 ^ po) (size / 2 ^ po - order) (size / 2 ^ po) 0)
              (λ d. if d.over == 0 then pure d.values else fail residual_range)
              (read_partitions-Words w pb (2 ^ po) (size / 2 ^ po - order) (size / 2 ^ po) 0)
              (λ d hd.
                Every-if (All (IsWord w)) (d.over == 0) (pure d.values) (fail residual_range)
                  (λ b. hd) (Every-fail (All (IsWord w)) residual_range)))))
  where
    rest : ℕ → M (List ℕ)
    rest po =
        let part_len = size / 2 ^ po in
        if not (size % 2 ^ po == 0)
        then fail unsupported
        else if ltb part_len order
        then fail unsupported
        else (read_partitions w pb (2 ^ po) (part_len - order) part_len 0 >>= λ d.
            if d.over == 0 then pure d.values else fail residual_range)

-- `DecodeResidual` returns patterns of `w` bits.
pub decode_residual-Words :
    (w size order : ℕ) → Every (All (IsWord w)) (decode_residual w size order)
unfolding decode_residual
decode_residual-Words w size order =
    Every-then (λ method. Unit) (All (IsWord w)) (read_bits 2)
      (λ method.
        if method == 0
        then read_body w size order 4
        else if method == 1
        then read_body w size order 5
        else fail unsupported)
      (Every-any (read_bits 2))
      (λ method h.
        Every-if (All (IsWord w)) (method == 0) (read_body w size order 4) _
          (read_body-Words w size order 4)
          (Every-if (All (IsWord w)) (method == 1) (read_body w size order 5) (fail unsupported)
            (read_body-Words w size order 5) (Every-fail (All (IsWord w)) unsupported)))

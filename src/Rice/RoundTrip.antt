-- ===== src/Rice/RoundTrip.antt =====
-- `DecodeResidual` against `WritePlanned` and `WritePlanned64`.
use go_flac.Prelude.{
  ℕ, zero, suc, ◌+◌, ◌-◌, ◌/◌, ◌%◌, ◌^◌, ◌≤◌, ◌<◌, ◌≡◌, refl, ap, ◌⊎◌, inl, inr, List, [], ◌∷◌,
  length, take, drop, length-take, take-drop, true, false, ltb, leb, ◌==◌, le→leb, gt→leb, ge→ltb,
  arith,
}
use go_flac.Prelude.Pow.{pow-lt}
use go_flac.Bitio.Writer.{Writer, write_bits}
use go_flac.Bitio.RoundTrip.{
  RoundTrip, RoundTrip-write_bits, RoundTrip-then, RoundTrip-end, RoundTrip-done, RoundTrip-width,
}
use go_flac.Rice.{
  Plan, bit_len, partition_bits, partition_order, written, write_partitions, write_planned,
  read_partitions, read_body, decode_residual,
}
use go_flac.Rice.Fold.{IsWidth}
use go_flac.Rice.Partition.{IsParamBits, Carries, all_read, RoundTrip-write_partition}

bit_len-pow : (k po : ℕ) → po < k → bit_len k (2 ^ po) ≡ suc po
unfolding bit_len
bit_len-pow zero po lt = absurd (omega arith)
bit_len-pow (suc k) po lt = elim (eq_or_lt k po lt) [
  | inl e ↦
      let h : leb (2 ^ k) (2 ^ po) ≡ true = le→leb (2 ^ k) (2 ^ po) (rw e (omega arith)) in
      rw (h, e) refl
  | inr less ↦ rw (gt→leb (2 ^ k) (2 ^ po) (pow-lt po k less), bit_len-pow k po less) refl
]
  where
    eq_or_lt : (k po : ℕ) → po < suc k → (k ≡ po) ⊎ (po < k)
    eq_or_lt k po lt = ground arith

-- The plans cut the residuals into partitions, `n` for the first and `part_len` for each other,
-- and each plan can carry its own.
abbrev pub AllCarry : ℕ → ℕ → ℕ → ℕ → ℕ → List Plan → List ℕ → Type 0
AllCarry w param_bits zero n part_len plans res = res ≡ []
AllCarry w param_bits (suc m) n part_len [] res = ⊥
AllCarry w param_bits (suc m) n part_len (pl ∷ plans) res =
    (n ≤ length res)
    × Carries w param_bits pl (take n res)
    × AllCarry w param_bits m part_len part_len plans (drop n res)

partitions_RoundTrip :
    (w param_bits m n part_len : ℕ) (plans : List Plan) (res : List ℕ)
    → IsWidth w
    → IsParamBits param_bits
    → AllCarry w param_bits m n part_len plans res
    → RoundTrip
        (partition_bits param_bits m plans)
        (write_partitions w param_bits m n part_len plans res)
        (read_partitions w param_bits m n part_len 0)
        (all_read res)
unfolding partition_bits write_partitions read_partitions
partitions_RoundTrip w param_bits zero n part_len plans res wide field e =
    rw e (RoundTrip-end (all_read []))
partitions_RoundTrip w param_bits (suc m) n part_len [] res wide field h = absurd h
partitions_RoundTrip w param_bits (suc m) n part_len (pl ∷ plans) res wide field (enough, one, h) =
    let front = RoundTrip-write_partition w param_bits pl (take n res) wide field one in
    let whole = take-drop n res in
    RoundTrip-then {e' = write_partitions w param_bits m part_len part_len plans (drop n res)} _
      (rw (length-take n res enough) at front)
      (RoundTrip-width (omega arith) (
        RoundTrip-then {n = 0} {e' = λ b. b} _
          (partitions_RoundTrip w param_bits m part_len part_len plans (drop n res) wide field h)
          (RoundTrip-done _ (ap all_read whole))))

body_RoundTrip :
    (w param_bits po block_size pred_order : ℕ) (plans : List Plan) (res : List ℕ)
    → IsWidth w
    → IsParamBits param_bits
    → po ≤ 15
    → block_size % 2 ^ po ≡ 0
    → pred_order ≤ block_size / 2 ^ po
    → AllCarry w param_bits
        (2 ^ po)
        (block_size / 2 ^ po - pred_order)
        (block_size / 2 ^ po)
        plans
        res
    → RoundTrip
        (4 + partition_bits param_bits (2 ^ po) plans)
        (λ b.
          write_partitions w param_bits
            (2 ^ po)
            (block_size / 2 ^ po - pred_order)
            (block_size / 2 ^ po)
            plans
            res
            (write_bits po 4 b))
        (read_body w block_size pred_order param_bits)
        res
unfolding read_body
body_RoundTrip w param_bits po block_size pred_order plans res wide field le divides room h =
    let part_len : ℕ = block_size / 2 ^ po in
    let whole : (block_size % 2 ^ po == 0) ≡ true = ground arith in
    let fits : ltb part_len pred_order ≡ false = ge→ltb part_len pred_order room in
    let e' : Writer → Writer =
      write_partitions w param_bits (2 ^ po) (part_len - pred_order) part_len plans res in
    RoundTrip-then {e' = e'} _ (RoundTrip-write_bits po 4 (omega arith) (omega arith)) (
      rw (whole, fits)
        (RoundTrip-width (omega arith) (
          RoundTrip-then {n = 0} {e' = λ b. b} _
            (partitions_RoundTrip w param_bits (2 ^ po) (part_len - pred_order) part_len plans res
              wide field h)
            (RoundTrip-end res))))

-- For samples of 32 or 64 bits and parameters of 4 or 5, `DecodeResidual` reads back the residuals
-- that `WritePlanned` (`WritePlanned64`) wrote by 2 ^ po plans, and these took the number of bits
-- that `WritePlanned` returns: if the partitions divide the block, the first is no shorter than the
-- warm-up, and each plan can carry its partition and says what it takes.
pub decode_residual-write_planned :
    (w param_bits po block_size pred_order : ℕ) (plans : List Plan) (res : List ℕ)
    → IsWidth w
    → IsParamBits param_bits
    → po ≤ 15
    → length plans ≡ 2 ^ po
    → block_size % 2 ^ po ≡ 0
    → pred_order ≤ block_size / 2 ^ po
    → AllCarry w param_bits
        (2 ^ po)
        (block_size / 2 ^ po - pred_order)
        (block_size / 2 ^ po)
        plans
        res
    → RoundTrip
        (written plans param_bits)
        (write_planned w res pred_order block_size plans param_bits)
        (decode_residual w block_size pred_order)
        res
unfolding written write_planned decode_residual
decode_residual-write_planned w param_bits po block_size pred_order plans res wide (inl e) le count
      divides room h =
    let order : partition_order plans ≡ po =
      rw (count, bit_len-pow 64 po (omega arith)) (omega arith) in
    let body =
      body_RoundTrip w param_bits po block_size pred_order plans res wide (inl e) le divides room
        h in
    rw (write_planned, order, e)
      (RoundTrip-width (omega arith)
        (RoundTrip-then _ (RoundTrip-write_bits 0 2 (omega arith) (omega arith)) (rw e at body)))
decode_residual-write_planned w param_bits po block_size pred_order plans res wide (inr e) le count
      divides room h =
    let order : partition_order plans ≡ po =
      rw (count, bit_len-pow 64 po (omega arith)) (omega arith) in
    let body =
      body_RoundTrip w param_bits po block_size pred_order plans res wide (inr e) le divides room
        h in
    rw (write_planned, order, e)
      (RoundTrip-width (omega arith)
        (RoundTrip-then _ (RoundTrip-write_bits 1 2 (omega arith) (omega arith)) (rw e at body)))

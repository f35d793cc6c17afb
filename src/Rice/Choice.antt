-- ===== src/Rice/Choice.antt =====
-- The choice of a coding for one partition, and the partition orders that a block allows
-- (internal/rice/encode.go). Counts are `int64` patterns.
use go_flac.Prelude.{
  ℕ, zero, suc, ◌+◌, ◌-◌, ◌*◌, ◌/◌, ◌%◌, ◌^◌, ◌≤◌, ◌<◌, ◌≡◌, ◌≢◌, ◌⊎◌, List, [], ◌∷◌, Bool, true,
  false, ◌&&◌, ◌||◌, ltb, leb, ◌==◌, if◌then◌else◌, Bool-cases, inl, inr, min, length, arith,
}
use go_flac.Rice.{Plan, bit_len}

abbrev pub max_partition_order : ℕ
max_partition_order = 15

-- The loop over the orders from `po` on, of which `left` are left.
unfoldable pub feasible_loop : ℕ → ℕ → ℕ → ℕ → ℕ → ℕ
feasible_loop block_size pred_order zero po pmax = pmax
feasible_loop block_size pred_order (suc left) po pmax =
    let part_len = block_size / 2 ^ po in
    let rest = feasible_loop block_size pred_order left (po + 1) po in
    if block_size % 2 ^ po == 0
    then (if ltb part_len pred_order || (part_len == 0) then pmax else rest)
    else pmax

unfoldable pub feasible_pmax : ℕ → ℕ → ℕ → ℕ
unfolding feasible_loop
feasible_pmax block_size pred_order max_part_order =
    feasible_loop block_size pred_order
      (if ltb max_partition_order max_part_order then max_partition_order else max_part_order) 1 0

unfoldable pub quotients : ℕ → ℕ → List ℕ → ℕ
quotients acc shift [] = acc
quotients acc shift (u ∷ zz) = quotients ((acc + u / 2 ^ shift) % 2 ^ 64) shift zz

unfoldable pub rice_bits : List ℕ → ℕ → ℕ
unfolding quotients
rice_bits zz k = (quotients 0 (k % 64) zz + length zz * (1 + k)) % 2 ^ 64

-- `a < b` on `int64`.
abbrev pub less64 : ℕ → ℕ → Bool
less64 a b = ltb ((a + 2 ^ 63) % 2 ^ 64) ((b + 2 ^ 63) % 2 ^ 64)

-- The loop of `bestParam`, with `left` parameters left from `k` on.
unfoldable pub best_loop : List ℕ → ℕ → ℕ → ℕ → ℕ → ℕ × ℕ
unfolding rice_bits
best_loop zz zero k best best_bits = (best, best_bits)
best_loop zz (suc left) k best best_bits =
    let b = rice_bits zz k in
    let taken = best_loop zz left (k + 1) k b in
    let kept = best_loop zz left (k + 1) best best_bits in
    if less64 b best_bits then taken else kept

unfoldable pub sum64 : ℕ → List ℕ → ℕ
sum64 acc [] = acc
sum64 acc (u ∷ zz) = sum64 ((acc + u) % 2 ^ 64) zz

-- The lower end of the window stops at 0 and at the upper end.
unfoldable pub best_param : List ℕ → ℕ × ℕ
unfolding best_loop sum64 bit_len
best_param zz =
    let n = length zz in
    let est = if ltb 0 n then bit_len 64 (sum64 0 zz / n) else 0 in
    let hi = min (est + 2) 30 in
    let lo = min (est - 1) hi in best_loop zz (hi + 1 - lo) lo 0 (2 ^ 63 - 1)

unfoldable pub largest : ℕ → List ℕ → ℕ
largest m [] = m
largest m (u ∷ zz) = largest (if ltb m u then u else m) zz

unfoldable pub plan_partition : List ℕ → Plan
unfolding best_param largest bit_len
plan_partition zz =
    let chosen = best_param zz in
    let raw = bit_len 64 (largest 0 zz) in
    let esc_bits = 5 + raw * length zz in
    if leb raw 31 && less64 (esc_bits % 2 ^ 64) chosen.1
    then record { escape = true; param = 0; raw_bits = raw; payload = esc_bits }
    else record { escape = false; param = chosen.0; raw_bits = 0; payload = chosen.1 }

feasible_loop_lem :
    (block_size pred_order left po pmax : ℕ)
    → po + left ≤ 16
    → pmax ≤ 15
    → block_size % 2 ^ pmax ≡ 0
    → pred_order ≤ block_size / 2 ^ pmax
    → (feasible_loop block_size pred_order left po pmax ≤ 15)
      × (block_size % 2 ^ feasible_loop block_size pred_order left po pmax ≡ 0)
      × (pred_order ≤ block_size / 2 ^ feasible_loop block_size pred_order left po pmax)
unfolding feasible_loop
feasible_loop_lem block_size pred_order zero po pmax bound small divides room =
    (small, divides, room)
feasible_loop_lem block_size pred_order (suc left) po pmax bound small divides room =
    elim (Bool-cases (block_size % 2 ^ po == 0)) [
      | inl whole ↦
          rw whole
            (elim (Bool-cases
              (ltb (block_size / 2 ^ po) pred_order || (block_size / 2 ^ po == 0))) [
                | inl narrow ↦ rw narrow (small, divides, room)
                | inr wide ↦ rw wide (
                    feasible_loop_lem block_size pred_order left (po + 1) po (omega arith)
                      (omega arith) (ground arith) (ground arith))
              ])
      | inr odd ↦ rw odd (small, divides, room)
    ]

-- An order that the loop stops at: the partitions do not divide the block, are shorter than the
-- warm-up, or are empty.
abbrev pub IsInfeasible : ℕ → ℕ → ℕ → Type 0
IsInfeasible block_size pred_order po =
    (block_size % 2 ^ po ≢ 0) ⊎ (block_size / 2 ^ po < pred_order) ⊎ (block_size / 2 ^ po ≡ 0)

feasible_loop-last :
    (block_size pred_order left pmax : ℕ)
    → (feasible_loop block_size pred_order left (pmax + 1) pmax ≤ pmax + left)
      × ((feasible_loop block_size pred_order left (pmax + 1) pmax ≡ pmax + left)
          ⊎ IsInfeasible block_size pred_order
              (feasible_loop block_size pred_order left (pmax + 1) pmax + 1))
unfolding feasible_loop
feasible_loop-last block_size pred_order zero pmax = (omega arith, inl (omega arith))
feasible_loop-last block_size pred_order (suc left) pmax =
    let (le, last) = feasible_loop-last block_size pred_order left (pmax + 1) in
    let part_len : ℕ = block_size / 2 ^ (pmax + 1) in
    elim (Bool-cases (block_size % 2 ^ (pmax + 1) == 0)) [
      | inl whole ↦ rw whole (elim (Bool-cases (ltb part_len pred_order || (part_len == 0))) [
        | inl narrow ↦ rw narrow (omega arith, inr (inr (ground arith)))
        | inr wide ↦
            let e : pmax + 1 + left ≡ pmax + suc left = omega arith in
            rw wide (omega arith, rw e at last)
      ])
      | inr odd ↦ rw odd (omega arith, inr (inl (ground arith)))
    ]

-- If the warm-up is no longer than the block, the order that `feasiblePmax` returns is at most 15
-- and at most the order asked for, its partitions divide the block, and the first is no shorter than
-- the warm-up. Unless it is the order asked for, or 15, the next order is infeasible: its partitions
-- do not divide the block, are shorter than the warm-up, or are empty.
pub feasible_pmax_lem :
    (block_size pred_order max_part_order : ℕ)
    → pred_order ≤ block_size
    → (feasible_pmax block_size pred_order max_part_order ≤ min max_part_order 15)
      × (block_size % 2 ^ feasible_pmax block_size pred_order max_part_order ≡ 0)
      × (pred_order ≤ block_size / 2 ^ feasible_pmax block_size pred_order max_part_order)
      × ((feasible_pmax block_size pred_order max_part_order ≡ min max_part_order 15)
          ⊎ IsInfeasible block_size pred_order
              (feasible_pmax block_size pred_order max_part_order + 1))
unfolding feasible_pmax
feasible_pmax_lem block_size pred_order max_part_order le =
    let cap : ℕ =
      if ltb max_partition_order max_part_order then max_partition_order else max_part_order in
    let least : cap ≡ min max_part_order 15 = ground arith in
    let (small, divides, room) =
      feasible_loop_lem block_size pred_order cap 1 0 (ground arith) (omega arith) (omega arith)
        (omega arith) in
    let (within, last) = feasible_loop-last block_size pred_order cap 0 in
    (omega arith, divides, room, elim last [ inl e ↦ inl (omega arith) | inr next ↦ inr next ])

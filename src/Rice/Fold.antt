-- ===== src/Rice/Fold.antt =====
-- The zigzag folding of `zigzag`, `zigzag64` (internal/rice/encode.go) and its inverse in
-- `DecodeResidual` (internal/rice/rice.go).
use go_flac.Prelude.{
  ℕ, ◌+◌, ◌-◌, ◌*◌, ◌/◌, ◌%◌, ◌^◌, ◌<◌, ◌≡◌, refl, ◌∙◌, ◌⊎◌, inl, inr, ltb, ◌==◌, if◌then◌else◌,
  Bool-cases, arith,
}
use go_flac.Prelude.Bits.{xor_ones, xor-zero}
use go_flac.Rice.{zigzag, unzigzag}

-- The widths of the sample types.
abbrev pub IsWidth : ℕ → Type 0
IsWidth w = (w ≡ 32) ⊎ (w ≡ 64)

zigzag32_lem :
    (r : ℕ)
    → r < 2 ^ 32
    → zigzag 32 r ≡ (if ltb r (2 ^ 31) then r * 2 else (2 ^ 32 - 1 - r) * 2 + 1)
unfolding zigzag
zigzag32_lem r lt = elim (Bool-cases (ltb r (2 ^ 31))) [
  | inl pos ↦ rw (pos, xor-zero (r * 2 % 2 ^ 32)) (ground arith)
  | inr neg ↦ rw (neg, xor_ones 32 (r * 2 % 2 ^ 32) (omega arith)) (ground arith)
]

pub zigzag64_lem :
    (r : ℕ)
    → r < 2 ^ 64
    → zigzag 64 r ≡ (if ltb r (2 ^ 63) then r * 2 else (2 ^ 64 - 1 - r) * 2 + 1)
unfolding zigzag
zigzag64_lem r lt = elim (Bool-cases (ltb r (2 ^ 63))) [
  | inl pos ↦ rw (pos, xor-zero (r * 2 % 2 ^ 64)) (ground arith)
  | inr neg ↦ rw (neg, xor_ones 64 (r * 2 % 2 ^ 64) (omega arith)) (ground arith)
]

-- Unfolding, in the words of arithmetic.
unzigzag_lem :
    (w u : ℕ)
    → u < 2 ^ 64
    → unzigzag w u ≡ (if u % 2 == 1 then 2 ^ 64 - 1 - u / 2 else u / 2) % 2 ^ w
unfolding unzigzag
unzigzag_lem w u lt = elim (Bool-cases (u % 2 == 1)) [
  | inl odd ↦ rw (odd, xor_ones 64 (u / 2) (omega arith)) refl
  | inr even ↦ rw (even, xor-zero (u / 2)) refl
]

-- Every pattern of the width is what its folded value unfolds to.
pub unzigzag-zigzag :
    (w r : ℕ) → IsWidth w → r < 2 ^ w → (zigzag w r < 2 ^ w) × (unzigzag w (zigzag w r) ≡ r)
unzigzag-zigzag w r (inl e) lt =
    let small : r < 2 ^ 32 = rw e at lt in
    let folded = zigzag32_lem r small in
    let bound : zigzag 32 r < 2 ^ 32 = ground (arith, folded) in
    rw e (bound, unzigzag_lem 32 (zigzag 32 r) (omega arith) ∙ ground (arith, folded))
unzigzag-zigzag w r (inr e) lt =
    let small : r < 2 ^ 64 = rw e at lt in
    let folded = zigzag64_lem r small in
    let bound : zigzag 64 r < 2 ^ 64 = ground (arith, folded) in
    rw e (bound, unzigzag_lem 64 (zigzag 64 r) bound ∙ ground (arith, folded))

-- ===== src/Frame/Encode/Choice.antt =====
-- The choices of the encoder.
use go_flac.Prelude.{
  ℕ, ◌+◌, ◌-◌, ◌^◌, ◌≤◌, ◌<◌, ◌≡◌, refl, ap, ◌⊎◌, ◌↔◌, inl, inr, List, [], ◌∷◌, All, length,
  replicate, get_or, true, false, ◌==◌, Bool-cases, if◌then◌else◌, arith,
}
use go_flac.Frame.Encode.{Candidates, choose_channels}
use go_flac.Frame.Subframe.Write.{all_same, all_equal, residuals_in_range, legal_residual}
use go_flac.Rice.{zigzag}
use go_flac.Rice.Fold.{zigzag64_lem}

-- The bits that the two subframes of a channel assignment take.
abbrev pub cost : ℕ → Candidates → ℕ
cost code c =
    if code == 8
    then c.plan_l.bits + c.plan_s.bits
    else if code == 9
    then c.plan_s.bits + c.plan_r.bits
    else if code == 10
    then c.plan_m.bits + c.plan_s.bits
    else c.plan_l.bits + c.plan_r.bits

-- `k` is the first in a list that costs least: less than any before it, no more than any behind it.
abbrev pub IsFirstLeast : (ℕ → ℕ) → ℕ → List ℕ → Type 0
IsFirstLeast f k [] = ⊥
IsFirstLeast f k (x ∷ xs) =
    ((k ≡ x) × All (λ y. f k ≤ f y) xs) ⊎ ((f k < f x) × IsFirstLeast f k xs)

-- The code that `encodeStereo` chooses in the full search is the first of 1 (two independent
-- channels), 8 (left/side), 9 (right/side) and 10 (mid/side) whose two subframes cost least; in the
-- adaptive one, the first of 1 and 10.
pub choose_channels_least :
    (c : Candidates)
    → IsFirstLeast (λ k. cost k c) (choose_channels false c) (1 ∷ 8 ∷ 9 ∷ 10 ∷ [])
      × IsFirstLeast (λ k. cost k c) (choose_channels true c) (1 ∷ 10 ∷ [])
unfolding choose_channels
choose_channels_least c = (ground arith, ground arith)

-- A block that `allEqual` (`allEqual64`) accepts is its first sample over and over.
pub all_equal_lem : (s : List ℕ) → all_equal s ≡ true → s ≡ replicate (length s) (get_or s 0 0)
unfolding all_equal
all_equal_lem [] e = refl
all_equal_lem (x ∷ s) e = ap (λ (t : List ℕ). x ∷ t) (go s e)
  where
    go : (s : List ℕ) → all_same x s ≡ true → s ≡ replicate (length s) x
    go [] e = refl
    go (y ∷ s) e = elim (Bool-cases (y == x)) [
      | inl same ↦
          let k : y ≡ x = ground arith in
          let rest : all_same x s ≡ true = rw same at e in
          rw k (ap (λ (t : List ℕ). x ∷ t) (go s rest))
      | inr differ ↦ let bad : false ≡ true = rw differ at e in absurd (ground arith)
    ]

-- `residualsInRange` accepts exactly the 64-bit residuals whose folded values are below 2 ^ 32 - 1, so
-- that a subframe that the wide path writes holds no residual of magnitude 2 ^ 31.
pub residuals_in_range_iff :
    (res : List ℕ)
    → All (λ r. r < 2 ^ 64) res
    → (residuals_in_range res ≡ true) ↔ All (λ r. zigzag 64 r < 2 ^ 32 - 1) res
unfolding residuals_in_range
residuals_in_range_iff [] h = (λ e. tt, λ a. refl)
residuals_in_range_iff (r ∷ res) (word, h) =
    let rest = residuals_in_range_iff res h in
    let folded = zigzag64_lem r word in
    elim (Bool-cases (legal_residual r)) [
      | inl legal ↦
          let small : zigzag 64 r < 2 ^ 32 - 1 = ground arith in
          rw legal (λ e. (small, rest.0 e), λ (x, a). rest.1 a)
      | inr outside ↦
          let large : 2 ^ 32 - 1 ≤ zigzag 64 r = ground arith in
          rw outside (λ e. absurd (ground arith), λ (x, a). absurd (omega arith))
    ]

-- ===== src/I32/Past.antt =====
-- The samples behind a position, latest first, as the predictors are given them.
use go_flac.Prelude.{ℕ, ◌+◌, ◌≡◌, List, [], ◌∷◌, All, length, take, take-All, arith}
use go_flac.I32.{rev_onto}

pub rev_onto-All :
    (P : ℕ → Type 0) (xs past : List ℕ) → All P xs → All P past → All P (rev_onto xs past)
rev_onto-All P [] past h h' = h'
rev_onto-All P (x ∷ xs) past (hx, h) h' = rev_onto-All P xs (x ∷ past) h (hx, h')

pub past-All : (P : ℕ → Type 0) (n : ℕ) (xs : List ℕ) → All P xs → All P (rev_onto (take n xs) [])
past-All P n xs h = rev_onto-All P (take n xs) [] (take-All P n xs h) tt

pub length-rev_onto : (xs past : List ℕ) → length (rev_onto xs past) ≡ length xs + length past
length-rev_onto [] past = omega arith
length-rev_onto (x ∷ xs) past = omega (arith, length-rev_onto xs (x ∷ past))

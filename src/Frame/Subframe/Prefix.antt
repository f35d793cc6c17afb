-- ===== src/Frame/Subframe/Prefix.antt =====
-- Restoring keeps the warm-up, and returns patterns of the width of a sample behind it, whatever the
-- residuals.
use go_flac.Prelude.{
  ℕ, zero, suc, ◌-◌, ◌≤◌, ◌≡◌, refl, ap, ◌∙◌, inl, inr, List, [], ◌∷◌, ◌++◌, All, length, leb,
  Bool-cases, arith,
}
use go_flac.Rice.Samples.{IsWord}
use go_flac.I32.{
  add32, sub32, cumsum_loop, cumsum, difference_loop, difference_prefix, times, restore,
}
use go_flac.I32.Fixed.{differences, difference_all, cumsum-times}

-- A list that starts with `front`, with patterns of `w` bits behind it.
abbrev pub Extends : ℕ → List ℕ → List ℕ → Type 0
Extends w front dst = (behind : List ℕ) × (dst ≡ front ++ behind) × All (IsWord w) behind

cumsum_loop-Words : (acc : ℕ) (xs : List ℕ) → All (IsWord 32) (cumsum_loop acc xs)
unfolding cumsum_loop
cumsum_loop-Words acc [] = tt
cumsum_loop-Words acc (x ∷ xs) = (omega arith, cumsum_loop-Words (add32 x acc) xs)

cumsum_loop-Extends :
    (acc : ℕ) (xs ys : List ℕ) → Extends 32 (cumsum_loop acc xs) (cumsum_loop acc (xs ++ ys))
unfolding cumsum_loop
cumsum_loop-Extends acc [] ys = (cumsum_loop acc ys, refl, cumsum_loop-Words acc ys)
cumsum_loop-Extends acc (x ∷ xs) ys =
    let (behind, e, words) = cumsum_loop-Extends (add32 x acc) xs ys in
    (behind, ap (λ (t : List ℕ). add32 x acc ∷ t) e, words)

cumsum-Extends : (xs ys : List ℕ) → 1 ≤ length xs → Extends 32 (cumsum xs) (cumsum (xs ++ ys))
unfolding cumsum
cumsum-Extends [] ys pos = absurd (omega arith)
cumsum-Extends (x ∷ xs) ys pos =
    let (behind, e, words) = cumsum_loop-Extends x xs ys in
    (behind, ap (λ (t : List ℕ). x ∷ t) e, words)

length-cumsum : (xs : List ℕ) → length (cumsum xs) ≡ length xs
unfolding cumsum cumsum_loop
length-cumsum [] = refl
length-cumsum (x ∷ xs) = ap suc (go x xs)
  where
    go : (acc : ℕ) (xs : List ℕ) → length (cumsum_loop acc xs) ≡ length xs
    go acc [] = refl
    go acc (x ∷ xs) = ap suc (go (add32 x acc) xs)

sums-Extends :
    (n : ℕ) (xs dst : List ℕ)
    → 1 ≤ length xs
    → Extends 32 xs dst
    → Extends 32 (times n cumsum xs) (times n cumsum dst)
sums-Extends zero xs dst pos h = h
sums-Extends (suc n) xs dst pos (ys, e, words) =
    let more : 1 ≤ length (cumsum xs) = rw (length-cumsum xs) pos in
    rw e (sums-Extends n (cumsum xs) (cumsum (xs ++ ys)) more (cumsum-Extends xs ys pos))

-- The passes on the warm-up leave what is behind it alone.
difference_loop-append :
    (prev : ℕ) (xs ys : List ℕ)
    → difference_loop (length xs) prev (xs ++ ys) ≡ difference_all prev xs ++ ys
unfolding difference_loop difference_all
difference_loop-append prev [] ys = refl
difference_loop-append prev (x ∷ xs) ys =
    ap (λ (t : List ℕ). sub32 x prev ∷ t) (difference_loop-append x xs ys)

length-difference_all : (prev : ℕ) (xs : List ℕ) → length (difference_all prev xs) ≡ length xs
unfolding difference_all
length-difference_all prev [] = refl
length-difference_all prev (x ∷ xs) = ap suc (length-difference_all x xs)

length-differences : (xs : List ℕ) → length (differences xs) ≡ length xs
unfolding differences
length-differences [] = refl
length-differences (x ∷ xs) = ap suc (length-difference_all x xs)

difference_prefix-append :
    (order : ℕ) (xs ys : List ℕ)
    → 1 ≤ order
    → length xs ≡ order
    → difference_prefix order (xs ++ ys) ≡ differences xs ++ ys
unfolding difference_prefix differences
difference_prefix-append order [] ys pos len = absurd (omega arith)
difference_prefix-append order (x ∷ xs) ys pos len =
    let e : order - 1 ≡ length xs = omega arith in
    rw e (ap (λ (t : List ℕ). x ∷ t) (difference_loop-append x xs ys))

times-difference_prefix :
    (n order : ℕ) (xs ys : List ℕ)
    → 1 ≤ order
    → length xs ≡ order
    → (times n (difference_prefix order) (xs ++ ys) ≡ times n differences xs ++ ys)
      × (length (times n differences xs) ≡ order)
times-difference_prefix zero order xs ys pos len = (refl, len)
times-difference_prefix (suc n) order xs ys pos len =
    let same : length (differences xs) ≡ order = length-differences xs ∙ len in
    rw (difference_prefix-append order xs ys pos len)
      (times-difference_prefix n order (differences xs) ys pos same)

-- `restoreI32`
pub restore-Extends :
    (c xs ys : List ℕ)
    → 2 ≤ length c
    → length xs ≡ length c - 1
    → All (IsWord 32) xs
    → All (IsWord 32) ys
    → Extends 32 xs (restore c (xs ++ ys))
unfolding restore
restore-Extends c xs ys two len hx hy =
    let order : ℕ = length c - 1 in
    elim (Bool-cases (leb (length (xs ++ ys)) order)) [
      | inl short ↦ rw short (ys, refl, hy)
      | inr more ↦
          let (passes, same) = times-difference_prefix order order xs ys (omega arith) len in
          let pos : 1 ≤ length (times order differences xs) = omega arith in
          let summed =
            sums-Extends order (times order differences xs) (times order differences xs ++ ys) pos
              (ys, refl, hy) in
          let back = cumsum-times order xs hx in rw (more, passes) (rw back at summed)
    ]

-- ===== src/I32/Fixed.antt =====
-- Restoring undoes the fixed predictors.
use go_flac.Prelude.{
  ℕ, zero, suc, ◌-◌, ◌*◌, ◌%◌, ◌^◌, ◌<◌, ◌≡◌, refl, ap, ◌∙◌, List, [], ◌∷◌, All, length, false, leb,
  arith,
}
use go_flac.I32.{
  add32, sub32, fixed_coeffs1, fixed_coeffs2, fixed_coeffs3, fixed_coeffs4, dot, diff_loop, diff,
  cumsum_loop, cumsum, difference_loop, difference_prefix, times, restore,
}

abbrev pub IsWord32 : ℕ → Type 0
IsWord32 x = x < 2 ^ 32

-- The whole first difference.
unfoldable pub difference_all : ℕ → List ℕ → List ℕ
difference_all prev [] = []
difference_all prev (x ∷ xs) = sub32 x prev ∷ difference_all x xs

unfoldable pub differences : List ℕ → List ℕ
unfolding difference_all
differences [] = []
differences (x ∷ xs) = x ∷ difference_all x xs

cumsum_loop-difference_all :
    (prev : ℕ) (xs : List ℕ)
    → IsWord32 prev
    → All IsWord32 xs
    → cumsum_loop prev (difference_all prev xs) ≡ xs
unfolding cumsum_loop difference_all
cumsum_loop-difference_all prev [] hp h = refl
cumsum_loop-difference_all prev (x ∷ xs) hp (hx, h) =
    let e : add32 (sub32 x prev) prev ≡ x = omega arith in
    rw (e, cumsum_loop-difference_all x xs hx h) refl

cumsum-differences : (xs : List ℕ) → All IsWord32 xs → cumsum (differences xs) ≡ xs
unfolding cumsum differences
cumsum-differences [] h = refl
cumsum-differences (x ∷ xs) (hx, h) =
    ap (λ (t : List ℕ). x ∷ t) (cumsum_loop-difference_all x xs hx h)

difference_all-Word32 : (p : ℕ) (xs : List ℕ) → All IsWord32 (difference_all p xs)
unfolding difference_all
difference_all-Word32 p [] = tt
difference_all-Word32 p (x ∷ xs) = (omega arith, difference_all-Word32 x xs)

differences-Word32 : (xs : List ℕ) → All IsWord32 xs → All IsWord32 (differences xs)
unfolding differences
differences-Word32 [] h = tt
differences-Word32 (x ∷ xs) (hx, h) = (hx, difference_all-Word32 x xs)

-- As many sums as differences.
pub cumsum-times :
    (n : ℕ) (xs : List ℕ) → All IsWord32 xs → times n cumsum (times n differences xs) ≡ xs
cumsum-times zero xs h = refl
cumsum-times (suc n) xs h =
    times_last n cumsum (times n differences (differences xs))
    ∙ ap cumsum (cumsum-times n (differences xs) (differences-Word32 xs h))
    ∙ cumsum-differences xs h
  where
    times_last : (n : ℕ) (f : List ℕ → List ℕ) (xs : List ℕ) → times n f (f xs) ≡ f (times n f xs)
    times_last zero f xs = refl
    times_last (suc n) f xs = times_last n f (f xs)

loop1 :
    (p : ℕ) (past xs : List ℕ)
    → IsWord32 p
    → All IsWord32 xs
    → diff_loop fixed_coeffs1 (p ∷ past) xs ≡ difference_all p xs
unfolding diff_loop dot difference_all
loop1 p past [] hp h = refl
loop1 p past (x ∷ xs) hp (hx, h) =
    let e : add32 (add32 0 (1 * x % 2 ^ 32)) ((2 ^ 32 - 1) * p % 2 ^ 32) ≡ sub32 x p =
      omega arith in
    rw (e, loop1 x (p ∷ past) xs hx h) refl

loop2 :
    (p q : ℕ) (past xs : List ℕ)
    → IsWord32 p
    → IsWord32 q
    → All IsWord32 xs
    → diff_loop fixed_coeffs2 (p ∷ q ∷ past) xs ≡ difference_all (sub32 p q) (difference_all p xs)
unfolding diff_loop dot difference_all
loop2 p q past [] hp hq h = refl
loop2 p q past (x ∷ xs) hp hq (hx, h) =
    let e : dot 0 fixed_coeffs2 (x ∷ p ∷ q ∷ past) ≡ sub32 (sub32 x p) (sub32 p q) = omega arith in
    rw (e, loop2 x p (q ∷ past) xs hx hp h) refl

loop3 :
    (p q r : ℕ) (past xs : List ℕ)
    → IsWord32 p
    → IsWord32 q
    → IsWord32 r
    → All IsWord32 xs
    → diff_loop fixed_coeffs3 (p ∷ q ∷ r ∷ past) xs
      ≡ difference_all
          (sub32 (sub32 p q) (sub32 q r))
          (difference_all (sub32 p q) (difference_all p xs))
unfolding diff_loop dot difference_all
loop3 p q r past [] hp hq hr h = refl
loop3 p q r past (x ∷ xs) hp hq hr (hx, h) =
    let e : dot 0 fixed_coeffs3 (x ∷ p ∷ q ∷ r ∷ past)
        ≡ sub32 (sub32 (sub32 x p) (sub32 p q)) (sub32 (sub32 p q) (sub32 q r)) =
      omega arith in
    rw (e, loop3 x p q (r ∷ past) xs hx hp hq h) refl

loop4 :
    (p q r s : ℕ) (past xs : List ℕ)
    → IsWord32 p
    → IsWord32 q
    → IsWord32 r
    → IsWord32 s
    → All IsWord32 xs
    → diff_loop fixed_coeffs4 (p ∷ q ∷ r ∷ s ∷ past) xs
      ≡ difference_all (sub32 (sub32 (sub32 p q) (sub32 q r)) (sub32 (sub32 q r) (sub32 r s))) (
          difference_all
            (sub32 (sub32 p q) (sub32 q r))
            (difference_all (sub32 p q) (difference_all p xs)))
unfolding diff_loop dot difference_all
loop4 p q r s past [] hp hq hr hs h = refl
loop4 p q r s past (x ∷ xs) hp hq hr hs (hx, h) =
    let e : dot 0 fixed_coeffs4 (x ∷ p ∷ q ∷ r ∷ s ∷ past)
        ≡ sub32 (sub32 (sub32 (sub32 x p) (sub32 p q)) (sub32 (sub32 p q) (sub32 q r)))
            (sub32 (sub32 (sub32 p q) (sub32 q r)) (sub32 (sub32 q r) (sub32 r s))) =
      omega arith in
    rw (e, loop4 x p q r (s ∷ past) xs hx hp hq hr h) refl

-- Past the warm-up, the passes over the prefix complete the differences.
restore1 : (src : List ℕ) → All IsWord32 src → restore fixed_coeffs1 (diff fixed_coeffs1 src) ≡ src
unfolding restore diff difference_prefix difference_loop differences
restore1 [] h = refl
restore1 (p ∷ []) h = refl
restore1 (p ∷ x ∷ xs) (hp, h) =
    let src : List ℕ = p ∷ x ∷ xs in
    let long : leb (length (diff fixed_coeffs1 src)) 1 ≡ false = ground arith in
    rw long (
      ap (λ (t : List ℕ). times 1 cumsum (p ∷ t)) (loop1 p [] (x ∷ xs) hp h)
      ∙ cumsum-times 1 src (hp, h))

restore2 : (src : List ℕ) → All IsWord32 src → restore fixed_coeffs2 (diff fixed_coeffs2 src) ≡ src
unfolding restore diff difference_prefix difference_loop differences
restore2 [] h = refl
restore2 (p ∷ []) h = refl
restore2 (p ∷ q ∷ []) h = refl
restore2 (p ∷ q ∷ x ∷ xs) (hp, (hq, h)) =
    let src : List ℕ = p ∷ q ∷ x ∷ xs in
    let long : leb (length (diff fixed_coeffs2 src)) 2 ≡ false = ground arith in
    rw long (
      ap (λ (t : List ℕ). times 2 cumsum (p ∷ sub32 (sub32 q p) p ∷ t))
        (loop2 q p [] (x ∷ xs) hq hp h)
      ∙ cumsum-times 2 src (hp, (hq, h)))

restore3 : (src : List ℕ) → All IsWord32 src → restore fixed_coeffs3 (diff fixed_coeffs3 src) ≡ src
unfolding restore diff difference_prefix difference_loop differences
restore3 [] h = refl
restore3 (p ∷ []) h = refl
restore3 (p ∷ q ∷ []) h = refl
restore3 (p ∷ q ∷ r ∷ []) h = refl
restore3 (p ∷ q ∷ r ∷ x ∷ xs) (hp, (hq, (hr, h))) =
    let src : List ℕ = p ∷ q ∷ r ∷ x ∷ xs in
    let long : leb (length (diff fixed_coeffs3 src)) 3 ≡ false = ground arith in
    rw long (
      ap (λ (t : List ℕ). times 3 cumsum (times 3 (difference_prefix 3) (p ∷ q ∷ r ∷ t)))
        (loop3 r q p [] (x ∷ xs) hr hq hp h)
      ∙ cumsum-times 3 src (hp, (hq, (hr, h))))

restore4 : (src : List ℕ) → All IsWord32 src → restore fixed_coeffs4 (diff fixed_coeffs4 src) ≡ src
unfolding restore diff difference_prefix difference_loop differences
restore4 [] h = refl
restore4 (p ∷ []) h = refl
restore4 (p ∷ q ∷ []) h = refl
restore4 (p ∷ q ∷ r ∷ []) h = refl
restore4 (p ∷ q ∷ r ∷ s ∷ []) h = refl
restore4 (p ∷ q ∷ r ∷ s ∷ x ∷ xs) (hp, (hq, (hr, (hs, h)))) =
    let src : List ℕ = p ∷ q ∷ r ∷ s ∷ x ∷ xs in
    let long : leb (length (diff fixed_coeffs4 src)) 4 ≡ false = ground arith in
    rw long (
      ap (λ (t : List ℕ). times 4 cumsum (times 4 (difference_prefix 4) (p ∷ q ∷ r ∷ s ∷ t)))
        (loop4 s r q p [] (x ∷ xs) hs hr hq hp h)
      ∙ cumsum-times 4 src (hp, (hq, (hr, (hs, h)))))

-- For each of the fixed predictors of order 1 to 4, `RestoreK` gives back the samples of which
-- `DiffK` took the residual, whatever their number and values: the wrap-around loses nothing.
pub restore-diff :
    (src : List ℕ)
    → All IsWord32 src
    → (restore fixed_coeffs1 (diff fixed_coeffs1 src) ≡ src)
      × (restore fixed_coeffs2 (diff fixed_coeffs2 src) ≡ src)
      × (restore fixed_coeffs3 (diff fixed_coeffs3 src) ≡ src)
      × (restore fixed_coeffs4 (diff fixed_coeffs4 src) ≡ src)
restore-diff src h = (restore1 src h, restore2 src h, restore3 src h, restore4 src h)

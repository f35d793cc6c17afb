-- ===== src/I32/Stereo.antt =====
-- The stereo kernels undo each other.
use go_flac.Prelude.{
  ℕ, ◌+◌, ◌-◌, ◌*◌, ◌%◌, ◌^◌, ◌≤◌, ◌<◌, ◌≡◌, refl, ap, sym, ◌⊎◌, List, [], ◌∷◌, All, length,
  bit_and, arith,
}
use go_flac.Prelude.Bits.{or_fields, and_mask}
use go_flac.I32.{
  sub32, zip_with, mid_of, mid_side_encode, sum_of, left_of, right_of, mid_side_decode,
}

-- A sample whose value is from -2 ^ 30 to 2 ^ 30 - 1, as those of up to 31 bits are.
abbrev pub IsNarrow : ℕ → Type 0
IsNarrow x = (x < 2 ^ 30) ⊎ ((2 ^ 32 - 2 ^ 30 ≤ x) × (x < 2 ^ 32))

sum_of_lem : (mid side : ℕ) → sum_of mid side ≡ mid * 2 % 2 ^ 32 + side % 2
sum_of_lem mid side =
    let low : bit_and side 1 ≡ side % 2 = and_mask 1 side in
    let high : mid * 2 % 2 ^ 32 ≡ mid % 2 ^ 31 * 2 ^ 1 = omega arith in
    rw (low, high) (or_fields 1 (mid % 2 ^ 31) (side % 2) (omega arith))

left_back : (l r : ℕ) → IsNarrow l → IsNarrow r → left_of (mid_of l r) (sub32 l r) ≡ l
left_back l r hl hr = rw (sum_of_lem (mid_of l r) (sub32 l r)) (ground arith)

right_back : (l r : ℕ) → IsNarrow l → IsNarrow r → right_of (mid_of l r) (sub32 l r) ≡ r
right_back l r hl hr = rw (sum_of_lem (mid_of l r) (sub32 l r)) (ground arith)

-- Element by element.
zip_back :
    (f g h : ℕ → ℕ → ℕ) (P : ℕ → Type 0)
    → ((l r : ℕ) → P l → P r → f (g l r) (h l r) ≡ l)
    → (ls rs : List ℕ) → length ls ≡ length rs
    → All P ls
    → All P rs
    → zip_with f (zip_with g ls rs) (zip_with h ls rs) ≡ ls
zip_back f g h P e [] rs len hl hr = refl
zip_back f g h P e (l ∷ ls) [] len hl hr = absurd (omega arith)
zip_back f g h P e (l ∷ ls) (r ∷ rs) len (pl, hl) (pr, hr) =
    rw (e l r pl pr, zip_back f g h P e ls rs (omega arith) hl hr) refl

zip_swap : (f : ℕ → ℕ → ℕ) (ls rs : List ℕ) → zip_with f ls rs ≡ zip_with (λ r l. f l r) rs ls
zip_swap f [] [] = refl
zip_swap f [] (r ∷ rs) = refl
zip_swap f (l ∷ ls) [] = refl
zip_swap f (l ∷ ls) (r ∷ rs) = ap (λ (t : List ℕ). f l r ∷ t) (zip_swap f ls rs)

-- Mid/side decoding gives back two channels of equal length from their mid and side, if every
-- sample is from -2 ^ 30 to 2 ^ 30 - 1.
pub mid_side_decode-mid_side_encode :
    (left right : List ℕ)
    → length left ≡ length right
    → All IsNarrow left
    → All IsNarrow right
    → mid_side_decode (mid_side_encode left right).0 (mid_side_encode left right).1 ≡ (left, right)
unfolding mid_side_decode mid_side_encode
mid_side_decode-mid_side_encode left right len hl hr =
    let first = zip_back left_of mid_of sub32 IsNarrow left_back left right len hl hr in
    let second =
      zip_back right_of (λ r l. mid_of l r) (λ r l. sub32 l r) IsNarrow
        (λ r l pr pl. right_back l r pl pr) right left (sym len) hr hl in
    rw (first, zip_swap mid_of left right, zip_swap sub32 left right, second) refl

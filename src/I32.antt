-- ===== src/I32.antt =====
-- internal/i32: the integer kernels on `int32` samples, as i32_go.go has them. A sample is its
-- two's complement pattern, and arithmetic wraps. The slices of a result are as long as the
-- arguments' shortest.
pub mod Stereo
pub mod Fixed
pub mod Lpc
pub mod Narrow
pub mod Past
pub mod Range
pub mod Unrolled
use go_flac.Prelude.{
  ℕ, zero, suc, ◌+◌, ◌-◌, ◌*◌, ◌/◌, ◌%◌, ◌^◌, List, [], ◌∷◌, ◌++◌, leb, ltb, if◌then◌else◌, bit_and,
  bit_or, take, drop, length,
}

abbrev pub add32 : ℕ → ℕ → ℕ
add32 a b = (a + b) % 2 ^ 32

abbrev pub sub32 : ℕ → ℕ → ℕ
sub32 a b = (a + 2 ^ 32 - b) % 2 ^ 32

-- `a >> 1` on an `int32`.
abbrev pub half32 : ℕ → ℕ
half32 a = if ltb a (2 ^ 31) then a / 2 else a / 2 + 2 ^ 31

abbrev pub zip_with : (ℕ → ℕ → ℕ) → List ℕ → List ℕ → List ℕ
zip_with f [] ys = []
zip_with f (a ∷ xs) [] = []
zip_with f (a ∷ xs) (b ∷ ys) = f a b ∷ zip_with f xs ys

-- `addGo` and `subGo`.
unfoldable pub add : List ℕ → List ℕ → List ℕ
add a b = zip_with add32 a b

unfoldable pub sub : List ℕ → List ℕ → List ℕ
sub a b = zip_with sub32 a b

abbrev pub mid_of : ℕ → ℕ → ℕ
mid_of l r = half32 (add32 l r)

-- `midSideEncodeGo`: mid and side from left and right.
unfoldable pub mid_side_encode : List ℕ → List ℕ → List ℕ × List ℕ
mid_side_encode left right = (zip_with mid_of left right, zip_with sub32 left right)

-- `sum`, in which the side's parity restores the bit that mid has lost.
abbrev pub sum_of : ℕ → ℕ → ℕ
sum_of mid side = bit_or (mid * 2 % 2 ^ 32) (bit_and side 1)

abbrev pub left_of : ℕ → ℕ → ℕ
left_of mid side = half32 (add32 (sum_of mid side) side)

abbrev pub right_of : ℕ → ℕ → ℕ
right_of mid side = half32 (sub32 (sum_of mid side) side)

-- `midSideDecodeGo`: left and right from mid and side.
unfoldable pub mid_side_decode : List ℕ → List ℕ → List ℕ × List ℕ
mid_side_decode mid side = (zip_with left_of mid side, zip_with right_of mid side)

abbrev pub fixed_coeffs1 : List ℕ
fixed_coeffs1 = 1 ∷ (2 ^ 32 - 1) ∷ []

abbrev pub fixed_coeffs2 : List ℕ
fixed_coeffs2 = 1 ∷ (2 ^ 32 - 2) ∷ 1 ∷ []

abbrev pub fixed_coeffs3 : List ℕ
fixed_coeffs3 = 1 ∷ (2 ^ 32 - 3) ∷ 3 ∷ (2 ^ 32 - 1) ∷ []

abbrev pub fixed_coeffs4 : List ℕ
fixed_coeffs4 = 1 ∷ (2 ^ 32 - 4) ∷ 6 ∷ (2 ^ 32 - 4) ∷ 1 ∷ []

-- `acc += cj * src[n-j]` over the coefficients: the samples come latest first.
unfoldable pub dot : ℕ → List ℕ → List ℕ → ℕ
dot acc [] xs = acc
dot acc (c ∷ cs) [] = acc
dot acc (c ∷ cs) (x ∷ xs) = dot (add32 acc (c * x % 2 ^ 32)) cs xs

-- The loop of `diffGo` after the warm-up, on the samples before `n`, latest first.
unfoldable pub diff_loop : List ℕ → List ℕ → List ℕ → List ℕ
unfolding dot
diff_loop c past [] = []
diff_loop c past (x ∷ xs) = dot 0 c (x ∷ past) ∷ diff_loop c (x ∷ past) xs

abbrev pub rev_onto : List ℕ → List ℕ → List ℕ
rev_onto [] acc = acc
rev_onto (x ∷ xs) acc = rev_onto xs (x ∷ acc)

unfoldable pub diff : List ℕ → List ℕ → List ℕ
unfolding diff_loop
diff c src =
    let order = length c - 1 in
    take order src ++ diff_loop c (rev_onto (take order src) []) (drop order src)

-- `a[i] += a[i-1]`, on the sum so far.
unfoldable pub cumsum_loop : ℕ → List ℕ → List ℕ
cumsum_loop acc [] = []
cumsum_loop acc (x ∷ xs) = add32 x acc ∷ cumsum_loop (add32 x acc) xs

-- `cumsumGo`.
unfoldable pub cumsum : List ℕ → List ℕ
unfolding cumsum_loop
cumsum [] = []
cumsum (x ∷ xs) = x ∷ cumsum_loop x xs

-- A pass `dst[i] -= dst[i-1]` over `k` samples after `prev`. The source goes backward so as to
-- subtract what stood there before.
unfoldable pub difference_loop : ℕ → ℕ → List ℕ → List ℕ
difference_loop zero prev xs = xs
difference_loop (suc k) prev [] = []
difference_loop (suc k) prev (x ∷ xs) = sub32 x prev ∷ difference_loop k x xs

-- For the indices from 1 to `order - 1`.
unfoldable pub difference_prefix : ℕ → List ℕ → List ℕ
unfolding difference_loop
difference_prefix order [] = []
difference_prefix order (x ∷ xs) = x ∷ difference_loop (order - 1) x xs

abbrev pub times : ℕ → (List ℕ → List ℕ) → List ℕ → List ℕ
times zero f xs = xs
times (suc n) f xs = times n f (f xs)

-- `restoreI32`
unfoldable pub restore : List ℕ → List ℕ → List ℕ
unfolding cumsum difference_prefix
restore c src =
    let order = length c - 1 in
    if leb (length src) order
    then src
    else times order cumsum (times order (difference_prefix order) src)

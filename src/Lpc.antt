-- ===== src/Lpc.antt =====
-- internal/lpc: residuals of the fixed and the quantised linear predictors, and the samples back
-- from them (lpc.go, encode.go). The code is generic in the sample type or written once for `int32`
-- and once for `int64`; samples are patterns of `w` bits, 32 or 64.
pub mod Inverse
pub mod Dispatch
use go_flac.Prelude.{
  ℕ, zero, suc, ◌+◌, ◌-◌, ◌*◌, ◌%◌, ◌^◌, List, [], ◌∷◌, ◌++◌, map, take, drop, length,
}
use go_flac.Signed.{add_w, sub_w, sar}
use go_flac.I32.{rev_onto}
use go_flac.I32.Lpc.{widen32}
use go_flac.Rice.{widen}

-- The coefficients as `int64`. The index panics above order 4, which no caller passes.
abbrev pub fixed_coeffs : ℕ → List ℕ
fixed_coeffs zero = []
fixed_coeffs (suc zero) = 1 ∷ []
fixed_coeffs (suc (suc zero)) = 2 ∷ (2 ^ 64 - 1) ∷ []
fixed_coeffs (suc (suc (suc zero))) = 3 ∷ (2 ^ 64 - 3) ∷ 1 ∷ []
fixed_coeffs (suc (suc (suc (suc zero)))) = 4 ∷ (2 ^ 64 - 6) ∷ 4 ∷ (2 ^ 64 - 1) ∷ []
fixed_coeffs (suc (suc (suc (suc (suc n))))) = []

-- `pred += c * int64(dst[n-1-i])` over the coefficients: the samples come latest first.
unfoldable pub weighted : ℕ → ℕ → List ℕ → List ℕ → ℕ
weighted w acc [] past = acc
weighted w acc (c ∷ cs) [] = acc
weighted w acc (c ∷ cs) (x ∷ past) = weighted w ((acc + c * widen w x) % 2 ^ 64) cs past

unfoldable pub fixed_prediction : ℕ → ℕ → List ℕ → ℕ
unfolding weighted
fixed_prediction w order past = weighted w 0 (fixed_coeffs order) past

unfoldable pub lpc_prediction : ℕ → List ℕ → ℕ → List ℕ → ℕ
unfolding weighted
lpc_prediction w coeffs shift past = sar 64 (weighted w 0 (map widen32 coeffs) past) shift

-- `dst[n] += T(pred)` for the predictions `p` from the samples before.
unfoldable pub restore_with : ℕ → (List ℕ → ℕ) → List ℕ → List ℕ → List ℕ
restore_with w p past [] = []
restore_with w p past (r ∷ rs) =
    let x = add_w w r (p past % 2 ^ w) in x ∷ restore_with w p (x ∷ past) rs

-- `res[i] = src[n] - T(pred)`
unfoldable pub residual_with : ℕ → (List ℕ → ℕ) → List ℕ → List ℕ → List ℕ
residual_with w p past [] = []
residual_with w p past (x ∷ xs) = sub_w w x (p past % 2 ^ w) ∷ residual_with w p (x ∷ past) xs

-- `RestoreFixed`: the first `order` elements are the warm-up.
unfoldable pub restore_fixed : ℕ → ℕ → List ℕ → List ℕ
unfolding restore_with fixed_prediction
restore_fixed w order dst =
    take order dst
    ++ restore_with w (fixed_prediction w order) (rev_onto (take order dst) []) (drop order dst)

-- `RestoreLPC`
unfoldable pub restore_lpc : ℕ → List ℕ → ℕ → List ℕ → List ℕ
unfolding restore_with lpc_prediction
restore_lpc w coeffs shift dst =
    let order = length coeffs in
    take order dst
    ++ restore_with w (lpc_prediction w coeffs shift) (rev_onto (take order dst) [])
        (drop order dst)

abbrev pub times64 : ℕ → ℕ → ℕ
times64 c x = c * x % 2 ^ 64

-- The predictions that `ComputeFixedResiduals` writes out for each order. The samples come latest
-- first, and the loops start after `order` of them.
unfoldable pub specialised : ℕ → ℕ → List ℕ → ℕ
specialised w (suc zero) (a ∷ past) = a
specialised w (suc (suc zero)) (a ∷ b ∷ past) = sub_w 64 (times64 2 (widen w a)) (widen w b)
specialised w (suc (suc (suc zero))) (a ∷ b ∷ c ∷ past) =
    add_w 64 (sub_w 64 (times64 3 (widen w a)) (times64 3 (widen w b))) (widen w c)
specialised w (suc (suc (suc (suc zero)))) (a ∷ b ∷ c ∷ d ∷ past) =
    sub_w 64
      (add_w 64 (sub_w 64 (times64 4 (widen w a)) (times64 6 (widen w b))) (times64 4 (widen w c)))
      (widen w d)
specialised w _ _ = 0

-- `ComputeFixedResiduals` and `ComputeFixedResiduals64`, of orders 0 to 4.
unfoldable pub compute_fixed_residuals : ℕ → List ℕ → ℕ → List ℕ
unfolding residual_with specialised
compute_fixed_residuals w src zero = src
compute_fixed_residuals w src (suc k) =
    residual_with w (specialised w (suc k)) (rev_onto (take (suc k) src) []) (drop (suc k) src)

abbrev pub compute_fixed_residuals64 : List ℕ → ℕ → List ℕ
unfolding compute_fixed_residuals
compute_fixed_residuals64 src order = compute_fixed_residuals 64 src order

-- `ComputeLPCResiduals` and `ComputeLPCResiduals64`: `order` is the number of coefficients.
unfoldable pub compute_lpc_residuals : ℕ → List ℕ → List ℕ → ℕ → List ℕ
unfolding residual_with lpc_prediction
compute_lpc_residuals w src qcoeff shift =
    let order = length qcoeff in
    residual_with w (lpc_prediction w qcoeff shift) (rev_onto (take order src) []) (drop order src)

abbrev pub compute_lpc_residuals64 : List ℕ → List ℕ → ℕ → List ℕ
unfolding compute_lpc_residuals
compute_lpc_residuals64 src qcoeff shift = compute_lpc_residuals 64 src qcoeff shift

-- ===== src/Lpc/Dispatch.antt =====
-- internal/lpc/simd.go: the `int32` forms of the predictors, through the kernels of internal/i32.
pub mod Agree
use go_flac.Prelude.{ℕ, zero, suc, List, Bool, ltb, ◌&&◌, if◌then◌else◌, min, length}
use go_flac.I32.{diff, restore, fixed_coeffs1, fixed_coeffs2, fixed_coeffs3, fixed_coeffs4}
use go_flac.I32.Lpc.{lpc_residual_encode}
use go_flac.I32.Narrow.{
  lpc_restore_narrow_safe, lpc_restore_narrow, lpc_restore_clamped, max_lpc_shift,
}

-- The kernels of `FixedResidualsDiff` and `RestoreFixed32`, by order; other orders panic.
abbrev pub diff_coeffs : ℕ → List ℕ
diff_coeffs (suc zero) = fixed_coeffs1
diff_coeffs (suc (suc zero)) = fixed_coeffs2
diff_coeffs (suc (suc (suc zero))) = fixed_coeffs3
diff_coeffs _ = fixed_coeffs4

unfoldable pub fixed_residuals_diff : List ℕ → ℕ → List ℕ
unfolding diff
fixed_residuals_diff src order = diff (diff_coeffs order) src

unfoldable pub restore_fixed32 : List ℕ → ℕ → List ℕ
unfolding restore
restore_fixed32 dst order = restore (diff_coeffs order) dst

-- `LPCResidualEncode` clamps the shift.
unfoldable pub lpc_residuals_encode : List ℕ → List ℕ → ℕ → List ℕ
unfolding lpc_residual_encode
lpc_residuals_encode src qcoeff shift = lpc_residual_encode qcoeff (min shift max_lpc_shift) src

-- The shift is not negative: `decodeLPC` has rejected it. `ceiling` as in `lpc_restore_narrow`.
unfoldable pub restore_lpc32 : ℕ → List ℕ → List ℕ → ℕ → ℕ → List ℕ
unfolding lpc_restore_narrow_safe lpc_restore_narrow lpc_restore_clamped
restore_lpc32 ceiling dst coeffs shift bps =
    if ltb 0 bps && lpc_restore_narrow_safe coeffs bps shift
    then lpc_restore_narrow ceiling dst coeffs shift
    else lpc_restore_clamped dst coeffs shift

-- ===== src/I32/Unrolled.antt =====
-- internal/i32/lpc_small.go and lpc_small_narrow.go: the restoration of LPC residuals unrolled for each
-- small order. The kernels of the orders differ in their length only: the last outputs are variables,
-- here a list of `order` samples, latest first, and the products are summed from the oldest on.
pub mod Loops
pub mod Whole
use go_flac.Prelude.{
  ℕ, ◌+◌, ◌*◌, ◌%◌, ◌^◌, List, [], ◌∷◌, ◌++◌, ltb, leb, ◌||◌, min, if◌then◌else◌, take, drop,
  length,
}
use go_flac.Signed.{sar}
use go_flac.I32.{add32, rev_onto}
use go_flac.I32.Lpc.{widen32, sar64, lpc_restore}
use go_flac.I32.Narrow.{max_lpc_shift, max_lpc_shift_narrow, lpc_restore_clamped}

abbrev pub max_scalar_kernel_order : ℕ
max_scalar_kernel_order = 10

abbrev pub max_scalar_kernel_order_narrow : ℕ
max_scalar_kernel_order_narrow = 12

-- `c1*x2 + c0*x1` and so on, in `int64`.
unfoldable pub kernel_sum : List ℕ → List ℕ → ℕ
kernel_sum (c ∷ cs) (x ∷ xs) = (kernel_sum cs xs + widen32 c * widen32 x) % 2 ^ 64
kernel_sum _ _ = 0

-- In `int32`.
unfoldable pub kernel_sum_narrow : List ℕ → List ℕ → ℕ
kernel_sum_narrow (c ∷ cs) (x ∷ xs) = add32 (kernel_sum_narrow cs xs) (c * x % 2 ^ 32)
kernel_sum_narrow _ _ = 0

-- The loop of `lpcRestore1` to `lpcRestore10`.
unfoldable pub kernel : List ℕ → ℕ → List ℕ → List ℕ → List ℕ
unfolding kernel_sum
kernel coeffs shift window [] = []
kernel coeffs shift window (r ∷ rs) =
    let v = add32 r (sar64 (kernel_sum coeffs window) (shift % 64) % 2 ^ 32) in
    v ∷ kernel coeffs shift (take (length coeffs) (v ∷ window)) rs

-- The loop of `lpcRestoreNarrow1` to `lpcRestoreNarrow12`.
unfoldable pub kernel_narrow : List ℕ → ℕ → List ℕ → List ℕ → List ℕ
unfolding kernel_sum_narrow sar
kernel_narrow coeffs shift window [] = []
kernel_narrow coeffs shift window (r ∷ rs) =
    let v = add32 r (sar 32 (kernel_sum_narrow coeffs window) (shift % 32)) in
    v ∷ kernel_narrow coeffs shift (take (length coeffs) (v ∷ window)) rs

unfoldable pub lpc_restore_scalar : List ℕ → List ℕ → ℕ → List ℕ
unfolding kernel lpc_restore
lpc_restore_scalar residual coeffs shift =
    let order = length coeffs in
    if ltb order 1 || ltb max_scalar_kernel_order order
    then lpc_restore coeffs shift residual
    else if leb (length residual) order
    then residual
    else take order residual
      ++ kernel coeffs (min shift max_lpc_shift) (rev_onto (take order residual) [])
          (drop order residual)

unfoldable pub lpc_restore_scalar_narrow : List ℕ → List ℕ → ℕ → List ℕ
unfolding kernel_narrow lpc_restore_clamped
lpc_restore_scalar_narrow residual coeffs shift =
    let order = length coeffs in
    if ltb order 1 || ltb max_scalar_kernel_order_narrow order
    then lpc_restore_clamped residual coeffs shift
    else if leb (length residual) order
    then residual
    else take order residual
      ++ kernel_narrow coeffs (min shift max_lpc_shift_narrow) (rev_onto (take order residual) [])
          (drop order residual)

-- ===== src/I32/Narrow.antt =====
-- internal/i32/lpc.go: `LPCRestore`, `LPCRestoreNarrow` and the test that chooses between them, and
-- the recurrence that accumulates in `int32` (`lpcRestoreGoNarrow` in lpc_small_narrow.go).
pub mod Exact
pub mod Restore
use go_flac.Prelude.{
  ℕ, ◌+◌, ◌-◌, ◌*◌, ◌/◌, ◌%◌, ◌^◌, List, [], ◌∷◌, ◌++◌, Bool, true, false, ltb, leb, ◌==◌, ◌&&◌,
  ◌||◌, min, if◌then◌else◌, take, drop, length,
}
use go_flac.Signed.{sar}
use go_flac.I32.{add32, dot, rev_onto}
use go_flac.I32.Lpc.{lpc_restore}

abbrev pub max_lpc_shift : ℕ
max_lpc_shift = 63

abbrev pub max_lpc_shift_narrow : ℕ
max_lpc_shift_narrow = 31

abbrev pub max_lpc_restore_order : ℕ
max_lpc_restore_order = 32

-- `max(int64(c), -int64(c))`
abbrev pub magnitude : ℕ → ℕ
magnitude c = if ltb c (2 ^ 31) then c else 2 ^ 32 - c

unfoldable pub abs_sum : List ℕ → ℕ
abs_sum [] = 0
abs_sum (c ∷ cs) = magnitude c + abs_sum cs

unfoldable pub lpc_restore_narrow_safe : List ℕ → ℕ → ℕ → Bool
unfolding abs_sum
lpc_restore_narrow_safe coeffs bps shift =
    let a = abs_sum coeffs in
    let max_pred = a * 2 ^ (bps - 1) in
    let shifted = (max_pred + 2 ^ shift - 1) / 2 ^ shift in
    if bps == 0
      || ltb 32 bps
      || ltb max_lpc_shift_narrow shift
      || ltb max_lpc_restore_order (length coeffs)
    then false
    else if leb (2 ^ (32 - bps)) a
    then false
    else ltb (2 ^ (bps - 1) + shifted) (2 ^ 31)

-- `LPCRestore`, which clamps the shift and copies a block that is all warm-up.
unfoldable pub lpc_restore_clamped : List ℕ → List ℕ → ℕ → List ℕ
unfolding lpc_restore
lpc_restore_clamped residual coeffs shift =
    let order = length coeffs in
    if order == 0 || leb (length residual) order
    then residual
    else lpc_restore coeffs (min shift max_lpc_shift) residual

-- `acc >> (shift & 31)` for a sum of products in `int32`, which wraps to the same in any order.
unfoldable pub predict_narrow : List ℕ → ℕ → List ℕ → ℕ
unfolding dot sar
predict_narrow coeffs shift past = sar 32 (dot 0 coeffs past) (shift % 32)

unfoldable pub restore_loop_narrow : List ℕ → ℕ → List ℕ → List ℕ → List ℕ
unfolding predict_narrow
restore_loop_narrow coeffs shift past [] = []
restore_loop_narrow coeffs shift past (r ∷ rs) =
    let x = add32 r (predict_narrow coeffs shift past) in
    x ∷ restore_loop_narrow coeffs shift (x ∷ past) rs

-- `lpcRestoreGoNarrow`
unfoldable pub lpc_restore_go_narrow : List ℕ → List ℕ → ℕ → List ℕ
unfolding restore_loop_narrow lpc_restore_clamped
lpc_restore_go_narrow residual coeffs shift =
    let order = length coeffs in
    if ltb order 1 || ltb max_lpc_restore_order order
    then lpc_restore_clamped residual coeffs shift
    else if leb (length residual) order
    then residual
    else take order residual
      ++ restore_loop_narrow coeffs (min shift max_lpc_shift_narrow)
          (rev_onto (take order residual) []) (drop order residual)

-- `LPCRestoreNarrow`. `ceiling` is `maxScalarRestoreOrderNarrow`, which each architecture sets: 7 on
-- amd64, 12 on arm64, 32 on arm. The unrolled kernels stand as the loop here; I32/Unrolled has them.
unfoldable pub lpc_restore_narrow : ℕ → List ℕ → List ℕ → ℕ → List ℕ
unfolding lpc_restore_clamped lpc_restore_go_narrow
lpc_restore_narrow ceiling residual coeffs shift =
    let order = length coeffs in
    if order == 0 || leb (length residual) order
    then residual
    else if leb order ceiling
    then lpc_restore_go_narrow residual coeffs (min shift max_lpc_shift_narrow)
    else lpc_restore_clamped residual coeffs shift

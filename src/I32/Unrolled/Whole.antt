-- ===== src/I32/Unrolled/Whole.antt =====
-- The unrolled forms over a whole block.
use go_flac.Prelude.{
  ℕ, ◌≤◌, ◌<◌, ◌≡◌, refl, sym, ◌∙◌, inl, inr, List, [], ◌++◌, length, take, drop, false, ltb, leb,
  ◌||◌, Bool-cases, leb→le, leb→gt, arith, min, length-take, take_all, drop_all, append-nil,
  if◌then◌else◌,
}
use go_flac.I32.{rev_onto}
use go_flac.I32.Past.{length-rev_onto}
use go_flac.I32.Lpc.{restore_loop, lpc_restore}
use go_flac.I32.Narrow.{
  max_lpc_shift, max_lpc_shift_narrow, max_lpc_restore_order, lpc_restore_clamped,
  restore_loop_narrow, lpc_restore_go_narrow,
}
use go_flac.I32.Unrolled.{
  max_scalar_kernel_order, max_scalar_kernel_order_narrow, kernel, kernel_narrow,
  lpc_restore_scalar, lpc_restore_scalar_narrow,
}
use go_flac.I32.Unrolled.Loops.{kernel-restore_loop, kernel_narrow-restore_loop_narrow}

abbrev past_of : ℕ → List ℕ → List ℕ
past_of order residual = rev_onto (take order residual) []

-- The window at the start is the whole past.
whole_window :
    (order : ℕ) (residual : List ℕ)
    → order < length residual
    → take order (past_of order residual) ≡ past_of order residual
whole_window order residual lt = take_all order (past_of order residual) (
    omega
      (arith, length-rev_onto (take order residual) [], length-take order residual (omega arith)))

scalar_route :
    (residual coeffs : List ℕ) (shift : ℕ)
    → lpc_restore_scalar residual coeffs shift ≡ (
        if ltb (length coeffs) 1 || ltb max_scalar_kernel_order (length coeffs)
        then lpc_restore coeffs shift residual
        else if leb (length residual) (length coeffs)
        then residual
        else take (length coeffs) residual
          ++ kernel coeffs
              (min shift max_lpc_shift)
              (past_of (length coeffs) residual)
              (drop (length coeffs) residual))
unfolding lpc_restore_scalar
scalar_route residual coeffs shift = refl

loop_route :
    (residual coeffs : List ℕ) (shift : ℕ)
    → lpc_restore coeffs shift residual
      ≡ take (length coeffs) residual
        ++ restore_loop coeffs shift
            (past_of (length coeffs) residual)
            (drop (length coeffs) residual)
unfolding lpc_restore
loop_route residual coeffs shift = refl

-- A block that is all warm-up.
short_loop :
    (residual coeffs : List ℕ) (shift : ℕ)
    → length residual ≤ length coeffs
    → lpc_restore coeffs shift residual ≡ residual
unfolding lpc_restore restore_loop
short_loop residual coeffs shift le =
    rw (take_all (length coeffs) residual le, drop_all (length coeffs) residual le)
      (append-nil residual)

-- `lpcRestoreScalar`, with the kernels unrolled for orders 1 to 10, restores what `lpcRestoreGo` does,
-- for every residual, all coefficients and shifts to 63.
pub lpc_restore_scalar-lpc_restore :
    (residual coeffs : List ℕ) (shift : ℕ)
    → shift ≤ 63
    → lpc_restore_scalar residual coeffs shift ≡ lpc_restore coeffs shift residual
lpc_restore_scalar-lpc_restore residual coeffs shift le =
    let n : ℕ = length coeffs in
    let kept : min shift max_lpc_shift ≡ shift = omega arith in
    scalar_route residual coeffs shift
    ∙ elim (Bool-cases (ltb n 1 || ltb max_scalar_kernel_order n)) [
      | inl out ↦ rw out refl
      | inr within ↦ elim (Bool-cases (leb (length residual) n)) [
        | inl short ↦
            rw (within, short)
              (sym (short_loop residual coeffs shift (leb→le (length residual) n short)))
        | inr long ↦
            let whole = whole_window n residual (leb→gt (length residual) n long) in
            let loop =
              kernel-restore_loop coeffs shift (past_of n residual) (drop n residual)
                (omega arith) in
            let same = rw whole at loop in
            rw (within, long, kept, same) (sym (loop_route residual coeffs shift))
      ]
    ]

narrow_route :
    (residual coeffs : List ℕ) (shift : ℕ)
    → lpc_restore_scalar_narrow residual coeffs shift ≡ (
        if ltb (length coeffs) 1 || ltb max_scalar_kernel_order_narrow (length coeffs)
        then lpc_restore_clamped residual coeffs shift
        else if leb (length residual) (length coeffs)
        then residual
        else take (length coeffs) residual
          ++ kernel_narrow coeffs
              (min shift max_lpc_shift_narrow)
              (past_of (length coeffs) residual)
              (drop (length coeffs) residual))
unfolding lpc_restore_scalar_narrow
narrow_route residual coeffs shift = refl

go_narrow_route :
    (residual coeffs : List ℕ) (shift : ℕ)
    → lpc_restore_go_narrow residual coeffs shift ≡ (
        if ltb (length coeffs) 1 || ltb max_lpc_restore_order (length coeffs)
        then lpc_restore_clamped residual coeffs shift
        else if leb (length residual) (length coeffs)
        then residual
        else take (length coeffs) residual
          ++ restore_loop_narrow coeffs
              (min shift max_lpc_shift_narrow)
              (past_of (length coeffs) residual)
              (drop (length coeffs) residual))
unfolding lpc_restore_go_narrow
go_narrow_route residual coeffs shift = refl

-- `lpcRestoreScalarNarrow`, with the kernels unrolled for orders 1 to 12, restores what
-- `lpcRestoreGoNarrow` does, for every residual, 1 to 12 coefficients and any shift.
pub lpc_restore_scalar_narrow-lpc_restore_go_narrow :
    (residual coeffs : List ℕ) (shift : ℕ)
    → 1 ≤ length coeffs
    → length coeffs ≤ 12
    → lpc_restore_scalar_narrow residual coeffs shift ≡ lpc_restore_go_narrow residual coeffs shift
lpc_restore_scalar_narrow-lpc_restore_go_narrow residual coeffs shift pos le =
    let n : ℕ = length coeffs in
    let small : ltb n 1 || ltb max_scalar_kernel_order_narrow n ≡ false = ground arith in
    let small' : ltb n 1 || ltb max_lpc_restore_order n ≡ false = ground arith in
    let second = go_narrow_route residual coeffs shift in
    narrow_route residual coeffs shift ∙ elim (Bool-cases (leb (length residual) n)) [
      | inl short ↦ rw (second, small, small', short) refl
      | inr long ↦
          let whole = whole_window n residual (leb→gt (length residual) n long) in
          let loop =
            kernel_narrow-restore_loop_narrow coeffs (min shift max_lpc_shift_narrow)
              (past_of n residual) (drop n residual) in
          let same = rw whole at loop in rw (second, small, small', long, same) refl
    ]

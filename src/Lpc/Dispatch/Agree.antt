-- ===== src/Lpc/Dispatch/Agree.antt =====
-- The kernels of internal/i32 compute what the loops of internal/lpc do.
use go_flac.Prelude.{
  ℕ, zero, suc, ◌+◌, ◌-◌, ◌*◌, ◌%◌, ◌^◌, ◌≤◌, ◌<◌, ◌≡◌, refl, sym, ap, ◌∙◌, inl, inr, List, [], ◌∷◌,
  All, length, take, drop, drop-All, map-All, map, Bool-cases, ltb, arith, min,
}
use go_flac.Signed.{sub_w, sar, Fits}
use go_flac.I32.{dot, diff_loop, diff, rev_onto, restore}
use go_flac.I32.Past.{past-All}
use go_flac.I32.Fixed.{IsWord32, restore-diff}
use go_flac.I32.Lpc.{widen32, weighted_sum, predict, residual_loop, lpc_residual_encode}
use go_flac.I32.Narrow.{lpc_restore_narrow_safe, max_lpc_shift}
use go_flac.I32.Narrow.Restore.{
  lpc_restore_clamped-lpc_residual_encode, lpc_restore_narrow-lpc_residual_encode,
}
use go_flac.I32.Narrow.Exact.{widen32-parts}
use go_flac.Rice.{widen}
use go_flac.Lpc.{
  weighted, lpc_prediction, residual_with, specialised, compute_fixed_residuals,
  compute_lpc_residuals,
}
use go_flac.Lpc.Inverse.{framed, past_length}
use go_flac.Lpc.Dispatch.{
  diff_coeffs, fixed_residuals_diff, restore_fixed32, lpc_residuals_encode, restore_lpc32,
}

widen-widen32 : (x : ℕ) → widen 32 x ≡ widen32 x
unfolding widen
widen-widen32 x = refl

weighted-weighted_sum :
    (acc : ℕ) (cs xs : List ℕ) → weighted 32 acc (map widen32 cs) xs ≡ weighted_sum acc cs xs
unfolding weighted weighted_sum
weighted-weighted_sum acc [] xs = refl
weighted-weighted_sum acc (c ∷ cs) [] = refl
weighted-weighted_sum acc (c ∷ cs) (x ∷ xs) =
    rw (weighted, widen-widen32 x)
      (weighted-weighted_sum ((acc + widen32 c * widen32 x) % 2 ^ 64) cs xs)

lpc_prediction-predict :
    (coeffs : List ℕ) (shift : ℕ) (past : List ℕ)
    → lpc_prediction 32 coeffs shift past % 2 ^ 32 ≡ predict coeffs shift past
unfolding lpc_prediction predict sar
lpc_prediction-predict coeffs shift past = rw (weighted-weighted_sum 0 coeffs past) refl

residual_with-residual_loop :
    (coeffs : List ℕ) (shift : ℕ) (past xs : List ℕ)
    → residual_with 32 (lpc_prediction 32 coeffs shift) past xs ≡ residual_loop coeffs shift past xs
unfolding residual_with residual_loop
residual_with-residual_loop coeffs shift past [] = refl
residual_with-residual_loop coeffs shift past (x ∷ xs) =
    rw
      (
        lpc_prediction-predict coeffs shift past,
        residual_with-residual_loop coeffs shift (x ∷ past) xs,
      )
      refl

-- `LPCResidualsEncode` writes the warm-up and, behind it, the residuals of `ComputeLPCResiduals`,
-- for shifts to 63.
pub lpc_residuals_encode-compute_lpc_residuals :
    (src qcoeff : List ℕ) (shift : ℕ)
    → shift ≤ 63
    → lpc_residuals_encode src qcoeff shift
      ≡ framed (length qcoeff) src (compute_lpc_residuals 32 src qcoeff shift)
unfolding lpc_residuals_encode lpc_residual_encode compute_lpc_residuals
lpc_residuals_encode-compute_lpc_residuals src qcoeff shift le =
    let kept : min shift max_lpc_shift ≡ shift = omega arith in
    let n : ℕ = length qcoeff in
    rw (kept, residual_with-residual_loop qcoeff shift (rev_onto (take n src) []) (drop n src)) refl

-- A sample as `int64`.
parts : (x : ℕ) → IsWord32 x → (t : ℕ) × (widen 32 x ≡ x + 2 ^ 32 * t) × (widen 32 x < 2 ^ 64)
parts x lt =
    let (t, e) = widen32-parts x in
    let small : widen32 x < 2 ^ 64 = ground arith in rw (widen-widen32 x) (t, e, small)

-- One step of each order: a sample against `order` samples behind it.
step :
    (k x : ℕ) (past : List ℕ)
    → 1 ≤ k
    → k ≤ 4
    → IsWord32 x
    → All IsWord32 past
    → k ≤ length past
    → sub_w 32 x (specialised 32 k past % 2 ^ 32) ≡ dot 0 (diff_coeffs k) (x ∷ past)
unfolding specialised dot
step (suc zero) x (a ∷ past) pos le hx (ha, h) long = omega arith
step (suc (suc zero)) x (a ∷ b ∷ past) pos le hx (ha, (hb, h)) long =
    let (i, ea, wa) = parts a ha in let (j, eb, wb) = parts b hb in omega arith
step (suc (suc (suc zero))) x (a ∷ b ∷ c ∷ past) pos le hx (ha, (hb, (hc, h))) long =
    let (i, ea, wa) = parts a ha in
    let (j, eb, wb) = parts b hb in let (k, ec, wc) = parts c hc in omega arith
step (suc (suc (suc (suc zero)))) x (a ∷ b ∷ c ∷ d ∷ past) pos le hx (ha, (hb, (hc, (hd, h))))
      long =
    let (i, ea, wa) = parts a ha in
    let (j, eb, wb) = parts b hb in
    let (k, ec, wc) = parts c hc in let (l, ed, wd) = parts d hd in omega arith
step zero x past pos le hx h long = absurd (omega arith)
step (suc k) x [] pos le hx h long = absurd (omega arith)
step (suc (suc k)) x (a ∷ []) pos le hx h long = absurd (omega arith)
step (suc (suc (suc k))) x (a ∷ b ∷ []) pos le hx h long = absurd (omega arith)
step (suc (suc (suc (suc k)))) x (a ∷ b ∷ c ∷ []) pos le hx h long = absurd (omega arith)
step (suc (suc (suc (suc (suc k))))) x past pos le hx h long = absurd (omega arith)

residual_with-diff_loop :
    (k : ℕ) (past xs : List ℕ)
    → 1 ≤ k
    → k ≤ 4
    → All IsWord32 past
    → k ≤ length past
    → All IsWord32 xs
    → residual_with 32 (specialised 32 k) past xs ≡ diff_loop (diff_coeffs k) past xs
unfolding residual_with diff_loop
residual_with-diff_loop k past [] pos le h long hxs = refl
residual_with-diff_loop k past (x ∷ xs) pos le h long (hx, hxs) =
    rw
      (
        step k x past pos le hx h long,
        residual_with-diff_loop k (x ∷ past) xs pos le (hx, h) (omega arith) hxs,
      )
      refl

length-diff_coeffs : (k : ℕ) → 1 ≤ k → k ≤ 4 → length (diff_coeffs k) - 1 ≡ k
length-diff_coeffs zero pos le = absurd (omega arith)
length-diff_coeffs (suc zero) pos le = refl
length-diff_coeffs (suc (suc zero)) pos le = refl
length-diff_coeffs (suc (suc (suc zero))) pos le = refl
length-diff_coeffs (suc (suc (suc (suc zero)))) pos le = refl
length-diff_coeffs (suc (suc (suc (suc (suc k))))) pos le = absurd (omega arith)

-- `FixedResidualsDiff` writes the warm-up and, behind it, the residuals of `ComputeFixedResiduals`,
-- of any order from 1 to 4 that is within the block, whatever the 32-bit samples.
pub fixed_residuals_diff-compute_fixed_residuals :
    (order : ℕ) (src : List ℕ)
    → 1 ≤ order
    → order ≤ 4
    → order ≤ length src
    → All IsWord32 src
    → fixed_residuals_diff src order ≡ framed order src (compute_fixed_residuals 32 src order)
unfolding fixed_residuals_diff diff compute_fixed_residuals
fixed_residuals_diff-compute_fixed_residuals zero src pos four le h = absurd (omega arith)
fixed_residuals_diff-compute_fixed_residuals (suc k) src pos four le h =
    let n : ℕ = suc k in
    let past : List ℕ = rev_onto (take n src) [] in
    let same =
      residual_with-diff_loop n past (drop n src) pos four (past-All IsWord32 n src h)
        (past_length n src le) (drop-All IsWord32 n src h) in
    rw (length-diff_coeffs n pos four, same) refl

-- `RestoreFixed32` gives back the samples whose residuals `ComputeFixedResiduals` took, of any order
-- from 1 to 4 that is within the block, when the warm-up precedes the residuals.
pub restore_fixed32-compute_fixed_residuals :
    (order : ℕ) (src : List ℕ)
    → 1 ≤ order
    → order ≤ 4
    → order ≤ length src
    → All IsWord32 src
    → restore_fixed32 (framed order src (compute_fixed_residuals 32 src order)) order ≡ src
unfolding restore_fixed32 fixed_residuals_diff
restore_fixed32-compute_fixed_residuals order src pos four le h =
    ap (λ (t : List ℕ). restore (diff_coeffs order) t)
      (sym (fixed_residuals_diff-compute_fixed_residuals order src pos four le h))
    ∙ by_order order src pos four h
  where
    by_order :
        (order : ℕ) (src : List ℕ)
        → 1 ≤ order
        → order ≤ 4
        → All IsWord32 src
        → restore (diff_coeffs order) (diff (diff_coeffs order) src) ≡ src
    by_order zero src pos four h = absurd (omega arith)
    by_order (suc zero) src pos four h = (restore-diff src h).0
    by_order (suc (suc zero)) src pos four h = (restore-diff src h).1
    by_order (suc (suc (suc zero))) src pos four h = (restore-diff src h).2
    by_order (suc (suc (suc (suc zero)))) src pos four h = (restore-diff src h).3
    by_order (suc (suc (suc (suc (suc k))))) src pos four h = absurd (omega arith)

-- `RestoreLPC32` gives back the samples whose residuals `ComputeLPCResiduals` took, on whichever
-- route it chooses and at any ceiling of the architecture, if there is a coefficient, the shift is
-- below 64, the warm-up precedes the residuals, and `bps` bits hold every sample.
pub restore_lpc32-compute_lpc_residuals :
    (ceiling : ℕ) (coeffs : List ℕ) (shift bps : ℕ) (src : List ℕ)
    → 1 ≤ length coeffs
    → shift ≤ 63
    → All IsWord32 coeffs
    → All (Fits 32 bps) src
    → restore_lpc32 ceiling
        (framed (length coeffs) src (compute_lpc_residuals 32 src coeffs shift))
        coeffs
        shift
        bps
      ≡ src
unfolding restore_lpc32 lpc_residuals_encode
restore_lpc32-compute_lpc_residuals ceiling coeffs shift bps src pos le hc h =
    let kept : min shift max_lpc_shift ≡ shift = omega arith in
    let layout : framed (length coeffs) src (compute_lpc_residuals 32 src coeffs shift)
        ≡ lpc_residual_encode coeffs shift src =
      sym (lpc_residuals_encode-compute_lpc_residuals src coeffs shift le)
      ∙ ap (λ (k : ℕ). lpc_residual_encode coeffs k src) kept in
    let wide =
      lpc_restore_clamped-lpc_residual_encode coeffs shift src pos le
        (map-All (λ x (f : Fits 32 bps x). f.0) src h) in
    elim (Bool-cases (lpc_restore_narrow_safe coeffs bps shift)) [
      | inl safe ↦
          let narrow =
            lpc_restore_narrow-lpc_residual_encode ceiling coeffs shift bps src pos safe hc h in
          elim (Bool-cases (ltb 0 bps)) [
            | inl e ↦ rw (layout, e, safe) narrow
            | inr e ↦ rw (layout, e) wide
          ]
      | inr e ↦ elim (Bool-cases (ltb 0 bps)) [
        | inl e' ↦ rw (layout, e', e) wide
        | inr e' ↦ rw (layout, e') wide
      ]
    ]

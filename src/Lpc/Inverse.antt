-- ===== src/Lpc/Inverse.antt =====
-- The predictors of internal/lpc undone, at either width, whatever the samples.
use go_flac.Prelude.{
  ℕ, zero, suc, ◌+◌, ◌*◌, ◌%◌, ◌^◌, ◌≤◌, ◌<◌, ◌≡◌, refl, sym, ap, inl, inr, List, [], ◌∷◌, ◌++◌,
  All, length, take, drop, take-append, drop-append, length-take, take-drop, drop-All, arith,
}
use native.Mathlib.Nat.{mod-eq_of_lt}
use go_flac.Signed.{add_w, sub_w}
use go_flac.I32.{rev_onto}
use go_flac.Rice.{widen}
use go_flac.Rice.Fold.{IsWidth}
use go_flac.I32.Past.{past-All, length-rev_onto}
use go_flac.Lpc.{
  weighted, fixed_prediction, lpc_prediction, restore_with, residual_with, restore_fixed,
  restore_lpc, specialised, compute_fixed_residuals, compute_lpc_residuals,
}

-- A pattern of `w` bits.
abbrev pub IsWord : ℕ → ℕ → Type 0
IsWord w x = x < 2 ^ w

pub widen-lt : (w x : ℕ) → IsWidth w → IsWord w x → widen w x < 2 ^ 64
unfolding widen
widen-lt w x (inl e) lt = let lt' : x < 2 ^ 32 = rw e at lt in rw e (ground arith)
widen-lt w x (inr e) lt = let lt' : x < 2 ^ 64 = rw e at lt in rw e (ground arith)

pub narrow-widen : (w x : ℕ) → IsWidth w → IsWord w x → widen w x % 2 ^ w ≡ x
unfolding widen
narrow-widen w x (inl e) lt = let lt' : x < 2 ^ 32 = rw e at lt in rw e (ground arith)
narrow-widen w x (inr e) lt = let lt' : x < 2 ^ 64 = rw e at lt in rw e (ground arith)

add_w-sub_w : (w x p : ℕ) → IsWidth w → IsWord w x → add_w w (sub_w w x (p % 2 ^ w)) (p % 2 ^ w) ≡ x
add_w-sub_w w x p (inl e) lt = let lt' : x < 2 ^ 32 = rw e at lt in rw e (omega arith)
add_w-sub_w w x p (inr e) lt = let lt' : x < 2 ^ 64 = rw e at lt in rw e (omega arith)

-- `p` and `q` predict the same sample wherever `n` samples are behind.
abbrev pub Agree : ℕ → ℕ → (List ℕ → ℕ) → (List ℕ → ℕ) → Type 0
Agree w n p q =
    (past : List ℕ) → All (IsWord w) past → n ≤ length past → p past % 2 ^ w ≡ q past % 2 ^ w

pub Agree-refl : (w n : ℕ) (p : List ℕ → ℕ) → Agree w n p p
Agree-refl w n p past h le = refl

-- Restoring by one predictor what another, agreeing one left over.
pub restore_with-residual_with :
    (w n : ℕ) (p q : List ℕ → ℕ) (past xs : List ℕ)
    → IsWidth w
    → Agree w n p q
    → All (IsWord w) past
    → n ≤ length past
    → All (IsWord w) xs
    → restore_with w p past (residual_with w q past xs) ≡ xs
unfolding restore_with residual_with
restore_with-residual_with w n p q past [] wide same hp le h = refl
restore_with-residual_with w n p q past (x ∷ xs) wide same hp le (hx, h) =
    rw
      (
        same past hp le,
        add_w-sub_w w x (q past) wide hx,
        restore_with-residual_with w n p q (x ∷ past) xs wide same (hx, hp) (omega arith) h,
      )
      refl

-- The written-out predictions are the sums of products.
fixed_prediction-specialised :
    (w k : ℕ) → IsWidth w → 1 ≤ k → k ≤ 4 → Agree w k (fixed_prediction w k) (specialised w k)
unfolding fixed_prediction specialised weighted
fixed_prediction-specialised w (suc zero) wide pos four (a ∷ past) (ha, h) le =
    let la = widen-lt w a wide ha in
    let e : (0 + 1 * widen w a) % 2 ^ 64 ≡ widen w a = omega arith in
    rw (e, narrow-widen w a wide ha) (sym (mod-eq_of_lt ha))
fixed_prediction-specialised w (suc (suc zero)) wide pos four (a ∷ b ∷ past) (ha, (hb, h)) le =
    let la = widen-lt w a wide ha in
    let lb = widen-lt w b wide hb in ap (λ (t : ℕ). t % 2 ^ w) (omega arith)
fixed_prediction-specialised w (suc (suc (suc zero))) wide pos four (a ∷ b ∷ c ∷ past)
      (ha, (hb, (hc, h))) le =
    let la = widen-lt w a wide ha in
    let lb = widen-lt w b wide hb in
    let lc = widen-lt w c wide hc in ap (λ (t : ℕ). t % 2 ^ w) (omega arith)
fixed_prediction-specialised w (suc (suc (suc (suc zero)))) wide pos four (a ∷ b ∷ c ∷ d ∷ past)
      (ha, (hb, (hc, (hd, h)))) le =
    let la = widen-lt w a wide ha in
    let lb = widen-lt w b wide hb in
    let lc = widen-lt w c wide hc in
    let ld = widen-lt w d wide hd in ap (λ (t : ℕ). t % 2 ^ w) (omega arith)
fixed_prediction-specialised w zero wide pos four past h le = absurd (omega arith)
fixed_prediction-specialised w (suc k) wide pos four [] h le = absurd (omega arith)
fixed_prediction-specialised w (suc (suc k)) wide pos four (a ∷ []) h le = absurd (omega arith)
fixed_prediction-specialised w (suc (suc (suc k))) wide pos four (a ∷ b ∷ []) h le =
    absurd (omega arith)
fixed_prediction-specialised w (suc (suc (suc (suc k)))) wide pos four (a ∷ b ∷ c ∷ []) h le =
    absurd (omega arith)
fixed_prediction-specialised w (suc (suc (suc (suc (suc k))))) wide pos four past h le =
    absurd (omega arith)

-- The warm-up and the residuals, in the layout of a subframe.
abbrev pub framed : ℕ → List ℕ → List ℕ → List ℕ
framed n src res = take n src ++ res

pub past_length : (n : ℕ) (src : List ℕ) → n ≤ length src → n ≤ length (rev_onto (take n src) [])
past_length n src le = omega (arith, length-rev_onto (take n src) [], length-take n src le)

pub take-framed :
    (n : ℕ) (src res : List ℕ) → n ≤ length src → take n (framed n src res) ≡ take n src
take-framed n src res le = rw (length-take n src le) at (take-append (take n src) res)

pub drop-framed : (n : ℕ) (src res : List ℕ) → n ≤ length src → drop n (framed n src res) ≡ res
drop-framed n src res le = rw (length-take n src le) at (drop-append (take n src) res)

-- The same at the head of a block.
whole_back :
    (w n : ℕ) (p q : List ℕ → ℕ) (src : List ℕ)
    → IsWidth w
    → Agree w n p q
    → n ≤ length src
    → All (IsWord w) src
    → take n src
        ++ restore_with w p
            (rev_onto (take n src) [])
            (residual_with w q (rev_onto (take n src) []) (drop n src))
      ≡ src
whole_back w n p q src wide same le h =
    rw
      (restore_with-residual_with w n p q (rev_onto (take n src) []) (drop n src) wide same
        (past-All (IsWord w) n src h) (past_length n src le) (drop-All (IsWord w) n src h))
      (take-drop n src)

untouched :
    (w : ℕ) (past xs : List ℕ)
    → IsWidth w
    → All (IsWord w) xs
    → restore_with w (fixed_prediction w 0) past xs ≡ xs
unfolding restore_with fixed_prediction weighted
untouched w past [] wide h = refl
untouched w past (x ∷ xs) wide (hx, h) =
    let e : (x + 0 % 2 ^ w) % 2 ^ w ≡ x = elim wide [
      | inl e ↦ let lt : x < 2 ^ 32 = rw e at hx in rw e (omega arith)
      | inr e ↦ let lt : x < 2 ^ 64 = rw e at hx in rw e (omega arith)
    ] in
    rw (e, untouched w (x ∷ past) xs wide h) refl

-- At 32 and at 64 bits, `RestoreFixed` gives back the samples whose residuals `ComputeFixedResiduals`
-- and `ComputeFixedResiduals64` took, of any order from 0 to 4 that is within the block, when the
-- warm-up precedes the residuals.
pub restore_fixed-compute_fixed_residuals :
    (w order : ℕ) (src : List ℕ)
    → IsWidth w
    → order ≤ 4
    → order ≤ length src
    → All (IsWord w) src
    → restore_fixed w order (framed order src (compute_fixed_residuals w src order)) ≡ src
unfolding restore_fixed compute_fixed_residuals
restore_fixed-compute_fixed_residuals w zero src wide four le h = untouched w [] src wide h
restore_fixed-compute_fixed_residuals w (suc k) src wide four le h =
    let res : List ℕ =
      residual_with w (specialised w (suc k)) (rev_onto (take (suc k) src) []) (drop (suc k) src) in
    rw (take-framed (suc k) src res le, drop-framed (suc k) src res le)
      (whole_back w (suc k) (fixed_prediction w (suc k)) (specialised w (suc k)) src wide
        (fixed_prediction-specialised w (suc k) wide (omega arith) four) le h)

-- At 32 and at 64 bits, `RestoreLPC` gives back the samples whose residuals `ComputeLPCResiduals`
-- and `ComputeLPCResiduals64` took, for any coefficients and shift, when the warm-up precedes the
-- residuals and the block is no shorter than it.
pub restore_lpc-compute_lpc_residuals :
    (w : ℕ) (coeffs : List ℕ) (shift : ℕ) (src : List ℕ)
    → IsWidth w
    → length coeffs ≤ length src
    → All (IsWord w) src
    → restore_lpc w coeffs shift
        (framed (length coeffs) src (compute_lpc_residuals w src coeffs shift))
      ≡ src
unfolding restore_lpc compute_lpc_residuals
restore_lpc-compute_lpc_residuals w coeffs shift src wide le h =
    let n : ℕ = length coeffs in
    let p : List ℕ → ℕ = lpc_prediction w coeffs shift in
    let res : List ℕ = residual_with w p (rev_onto (take n src) []) (drop n src) in
    rw (take-framed n src res le, drop-framed n src res le)
      (whole_back w n p p src wide (Agree-refl w n p) le h)

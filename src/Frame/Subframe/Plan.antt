-- ===== src/Frame/Subframe/Plan.antt =====
-- Which plans describe a block, and the bits that they take.
use go_flac.Prelude.{
  ℕ, zero, suc, ◌+◌, ◌-◌, ◌*◌, ◌≤◌, ◌<◌, ◌≡◌, refl, ap, ◌∙◌, List, [], ◌∷◌, All, take, drop, length,
  replicate, get_or, length-drop, arith,
}
use go_flac.Signed.{sar, Fits}
use go_flac.Rice.{written}
use go_flac.Lpc.{residual_with, compute_fixed_residuals, compute_lpc_residuals}
use go_flac.Frame.Subframe.Write.{Kind, constant, verbatim, fixed, lpc, SubframePlan}
use go_flac.Frame.Subframe.RoundTrip.{stored}
use go_flac.Frame.Subframe.Kinds.{IsCoded}

-- The bits of a subframe, as `planSubframe` and `planSubframe64` count them.
abbrev pub kind_bits : Kind → ℕ → ℕ → ℕ → SubframePlan → ℕ
kind_bits constant len bps precision plan = bps
kind_bits verbatim len bps precision plan = plan.wasted + len * (bps - plan.wasted)
kind_bits fixed len bps precision plan =
    plan.wasted + plan.order * (bps - plan.wasted) + written plan.plans plan.rice_param_bits
kind_bits lpc len bps precision plan =
    plan.wasted
    + plan.order * (bps - plan.wasted)
    + 4
    + 5
    + plan.order * precision
    + written plan.plans plan.rice_param_bits

-- What the plan of each kind must say of the samples.
abbrev pub IsPlanOf : Kind → ℕ → List ℕ → ℕ → SubframePlan → Type 0
IsPlanOf constant w s precision plan = s ≡ replicate (length s) (get_or s 0 0)
IsPlanOf verbatim w s precision plan = Unit
IsPlanOf fixed w s precision plan =
    (plan.order ≤ 4)
    × (plan.order ≤ length s)
    × (plan.residuals ≡ compute_fixed_residuals w (stored w plan.wasted s) plan.order)
    × IsCoded w (length s) plan.order plan.rice_param_bits plan.plans plan.residuals
IsPlanOf lpc w s precision plan =
    (plan.order ≡ length plan.qcoeff)
    × (1 ≤ plan.order)
    × (plan.order ≤ 32)
    × (plan.order ≤ length s)
    × (plan.shift < 16)
    × (1 ≤ precision)
    × (precision ≤ 15)
    × All (Fits 32 precision) plan.qcoeff
    × (plan.residuals ≡ compute_lpc_residuals w (stored w plan.wasted s) plan.qcoeff plan.shift)
    × IsCoded w (length s) plan.order plan.rice_param_bits plan.plans plan.residuals

length-residual_with :
    (w : ℕ) (p : List ℕ → ℕ) (past xs : List ℕ) → length (residual_with w p past xs) ≡ length xs
unfolding residual_with
length-residual_with w p past [] = refl
length-residual_with w p past (x ∷ xs) = omega (arith, length-residual_with w p (x ∷ past) xs)

pub length-compute_fixed_residuals :
    (w : ℕ) (t : List ℕ) (order : ℕ) → length (compute_fixed_residuals w t order) ≡ length t - order
unfolding compute_fixed_residuals
length-compute_fixed_residuals w t zero = omega arith
length-compute_fixed_residuals w t (suc k) =
    length-residual_with w _ _ (drop (suc k) t) ∙ length-drop (suc k) t

pub length-compute_lpc_residuals :
    (w : ℕ) (t coeffs : List ℕ) (shift : ℕ)
    → length (compute_lpc_residuals w t coeffs shift) ≡ length t - length coeffs
unfolding compute_lpc_residuals
length-compute_lpc_residuals w t coeffs shift =
    length-residual_with w _ _ (drop (length coeffs) t) ∙ length-drop (length coeffs) t

pub length-stored : (w wasted : ℕ) (s : List ℕ) → length (stored w wasted s) ≡ length s
length-stored w wasted [] = refl
length-stored w wasted (x ∷ s) = ap suc (length-stored w wasted s)

pub take-stored :
    (w wasted n : ℕ) (s : List ℕ) → stored w wasted (take n s) ≡ take n (stored w wasted s)
take-stored w wasted zero s = refl
take-stored w wasted (suc n) [] = refl
take-stored w wasted (suc n) (x ∷ s) =
    ap (λ (t : List ℕ). sar w x wasted ∷ t) (take-stored w wasted n s)

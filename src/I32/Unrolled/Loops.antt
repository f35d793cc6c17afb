-- ===== src/I32/Unrolled/Loops.antt =====
-- The unrolled kernels compute what the loops do.
use go_flac.Prelude.{
  ℕ, zero, suc, ◌+◌, ◌*◌, ◌%◌, ◌^◌, ◌<◌, ◌≡◌, refl, ap, ◌∙◌, List, [], ◌∷◌, length, take, arith,
}
use go_flac.Signed.{sar}
use go_flac.I32.{add32, dot}
use go_flac.I32.Lpc.{widen32, sar64, weighted_sum, predict, restore_loop}
use go_flac.I32.Narrow.{predict_narrow, restore_loop_narrow}
use go_flac.I32.Unrolled.{kernel_sum, kernel_sum_narrow, kernel, kernel_narrow}

-- The order of the sum does not matter.
kernel_sum-weighted_sum :
    (acc : ℕ) (cs xs : List ℕ)
    → acc < 2 ^ 64
    → (kernel_sum cs xs + acc) % 2 ^ 64 ≡ weighted_sum acc cs xs
unfolding kernel_sum weighted_sum
kernel_sum-weighted_sum acc [] xs lt = omega arith
kernel_sum-weighted_sum acc (c ∷ cs) [] lt = omega arith
kernel_sum-weighted_sum acc (c ∷ cs) (x ∷ xs) lt =
    let p : ℕ = widen32 c * widen32 x in
    let e : ((kernel_sum cs xs + p) % 2 ^ 64 + acc) % 2 ^ 64
        ≡ (kernel_sum cs xs + (acc + p) % 2 ^ 64) % 2 ^ 64 =
      omega arith in
    e ∙ kernel_sum-weighted_sum ((acc + p) % 2 ^ 64) cs xs (omega arith)

kernel_sum-lt : (cs xs : List ℕ) → kernel_sum cs xs < 2 ^ 64
unfolding kernel_sum
kernel_sum-lt [] xs = omega arith
kernel_sum-lt (c ∷ cs) [] = omega arith
kernel_sum-lt (c ∷ cs) (x ∷ xs) = omega arith

-- Only the samples that meet a coefficient count.
kernel_sum-take : (cs xs : List ℕ) → kernel_sum cs (take (length cs) xs) ≡ kernel_sum cs xs
unfolding kernel_sum
kernel_sum-take [] xs = refl
kernel_sum-take (c ∷ cs) [] = refl
kernel_sum-take (c ∷ cs) (x ∷ xs) =
    ap (λ (t : ℕ). (t + widen32 c * widen32 x) % 2 ^ 64) (kernel_sum-take cs xs)

take-take : (n : ℕ) (xs : List ℕ) → take n (take n xs) ≡ take n xs
take-take zero xs = refl
take-take (suc n) [] = refl
take-take (suc n) (x ∷ xs) = ap (λ (t : List ℕ). x ∷ t) (take-take n xs)

-- The window after a step.
slid : (n v : ℕ) (xs : List ℕ) → take n (v ∷ take n xs) ≡ take n (v ∷ xs)
slid zero v xs = refl
slid (suc n) v xs = ap (λ (t : List ℕ). v ∷ t) (shorter n xs)
  where
    shorter : (n : ℕ) (xs : List ℕ) → take n (take (suc n) xs) ≡ take n xs
    shorter zero xs = refl
    shorter (suc n) [] = refl
    shorter (suc n) (x ∷ xs) = ap (λ (t : List ℕ). x ∷ t) (shorter n xs)

pub kernel-restore_loop :
    (coeffs : List ℕ) (shift : ℕ) (past rs : List ℕ)
    → shift < 64
    → kernel coeffs shift (take (length coeffs) past) rs ≡ restore_loop coeffs shift past rs
unfolding kernel restore_loop predict
kernel-restore_loop coeffs shift past [] lt = refl
kernel-restore_loop coeffs shift past (r ∷ rs) lt =
    let n : ℕ = length coeffs in
    let kept : shift % 64 ≡ shift = omega arith in
    let small = kernel_sum-lt coeffs past in
    let same : kernel_sum coeffs (take n past) ≡ weighted_sum 0 coeffs past =
      kernel_sum-take coeffs past
      ∙ omega arith
      ∙ kernel_sum-weighted_sum 0 coeffs past (omega arith) in
    let v : ℕ = add32 r (sar64 (weighted_sum 0 coeffs past) shift % 2 ^ 32) in
    rw (kept, same, slid n v past, kernel-restore_loop coeffs shift (v ∷ past) rs lt) refl

kernel_sum_narrow-dot :
    (acc : ℕ) (cs xs : List ℕ) → acc < 2 ^ 32 → add32 (kernel_sum_narrow cs xs) acc ≡ dot acc cs xs
unfolding kernel_sum_narrow dot
kernel_sum_narrow-dot acc [] xs lt = omega arith
kernel_sum_narrow-dot acc (c ∷ cs) [] lt = omega arith
kernel_sum_narrow-dot acc (c ∷ cs) (x ∷ xs) lt =
    let p : ℕ = c * x in
    let e : add32 (add32 (kernel_sum_narrow cs xs) (p % 2 ^ 32)) acc
        ≡ add32 (kernel_sum_narrow cs xs) (add32 acc (p % 2 ^ 32)) =
      omega arith in
    e ∙ kernel_sum_narrow-dot (add32 acc (p % 2 ^ 32)) cs xs (omega arith)

kernel_sum_narrow-lt : (cs xs : List ℕ) → kernel_sum_narrow cs xs < 2 ^ 32
unfolding kernel_sum_narrow
kernel_sum_narrow-lt [] xs = omega arith
kernel_sum_narrow-lt (c ∷ cs) [] = omega arith
kernel_sum_narrow-lt (c ∷ cs) (x ∷ xs) = omega arith

kernel_sum_narrow-take :
    (cs xs : List ℕ) → kernel_sum_narrow cs (take (length cs) xs) ≡ kernel_sum_narrow cs xs
unfolding kernel_sum_narrow
kernel_sum_narrow-take [] xs = refl
kernel_sum_narrow-take (c ∷ cs) [] = refl
kernel_sum_narrow-take (c ∷ cs) (x ∷ xs) =
    ap (λ (t : ℕ). add32 t (c * x % 2 ^ 32)) (kernel_sum_narrow-take cs xs)

pub kernel_narrow-restore_loop_narrow :
    (coeffs : List ℕ) (shift : ℕ) (past rs : List ℕ)
    → kernel_narrow coeffs shift (take (length coeffs) past) rs
      ≡ restore_loop_narrow coeffs shift past rs
unfolding kernel_narrow restore_loop_narrow predict_narrow
kernel_narrow-restore_loop_narrow coeffs shift past [] = refl
kernel_narrow-restore_loop_narrow coeffs shift past (r ∷ rs) =
    let n : ℕ = length coeffs in
    let small = kernel_sum_narrow-lt coeffs past in
    let same : kernel_sum_narrow coeffs (take n past) ≡ dot 0 coeffs past =
      kernel_sum_narrow-take coeffs past
      ∙ omega arith
      ∙ kernel_sum_narrow-dot 0 coeffs past (omega arith) in
    let v : ℕ = add32 r (sar 32 (dot 0 coeffs past) (shift % 32)) in
    rw (same, slid n v past, kernel_narrow-restore_loop_narrow coeffs shift (v ∷ past) rs) refl

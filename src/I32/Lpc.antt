-- ===== src/I32/Lpc.antt =====
-- `lpcResidualEncodeGo` and `lpcRestoreGo` (internal/i32/i32_go.go): the residual of a quantised
-- linear predictor, and the samples back from it.
use go_flac.Prelude.{
  ℕ, zero, suc, ◌+◌, ◌-◌, ◌*◌, ◌/◌, ◌%◌, ◌^◌, ◌≤◌, ◌≡◌, refl, inl, inr, List, [], ◌∷◌, ◌++◌, ltb,
  leb, if◌then◌else◌, All, length, take, drop, take-append, drop-append, length-take, take-drop,
  take_all, drop_all, append-nil, arith, Bool-cases, leb→le, leb→gt,
}
use go_flac.I32.{add32, sub32, rev_onto}
use go_flac.I32.Fixed.{IsWord32}

-- `int64(x)`
abbrev pub widen32 : ℕ → ℕ
widen32 x = if ltb x (2 ^ 31) then x else x + (2 ^ 64 - 2 ^ 32)

-- `a >> k` on an `int64`.
abbrev pub sar64 : ℕ → ℕ → ℕ
sar64 a k = if ltb a (2 ^ 63) then a / 2 ^ k else 2 ^ 64 - 1 - (2 ^ 64 - 1 - a) / 2 ^ k

-- `acc += int64(c) * int64(samples[i-1-j])` over the coefficients: the samples come latest first.
unfoldable pub weighted_sum : ℕ → List ℕ → List ℕ → ℕ
weighted_sum acc [] xs = acc
weighted_sum acc (c ∷ cs) [] = acc
weighted_sum acc (c ∷ cs) (x ∷ xs) = weighted_sum ((acc + widen32 c * widen32 x) % 2 ^ 64) cs xs

-- `int32(acc>>shift)`
unfoldable pub predict : List ℕ → ℕ → List ℕ → ℕ
unfolding weighted_sum
predict coeffs shift past = sar64 (weighted_sum 0 coeffs past) shift % 2 ^ 32

unfoldable pub residual_loop : List ℕ → ℕ → List ℕ → List ℕ → List ℕ
unfolding predict
residual_loop coeffs shift past [] = []
residual_loop coeffs shift past (x ∷ xs) =
    sub32 x (predict coeffs shift past) ∷ residual_loop coeffs shift (x ∷ past) xs

unfoldable pub lpc_residual_encode : List ℕ → ℕ → List ℕ → List ℕ
unfolding residual_loop
lpc_residual_encode coeffs shift samples =
    let order = length coeffs in
    take order samples
    ++ residual_loop coeffs shift (rev_onto (take order samples) []) (drop order samples)

unfoldable pub restore_loop : List ℕ → ℕ → List ℕ → List ℕ → List ℕ
unfolding predict
restore_loop coeffs shift past [] = []
restore_loop coeffs shift past (r ∷ rs) =
    let x = add32 r (predict coeffs shift past) in x ∷ restore_loop coeffs shift (x ∷ past) rs

unfoldable pub lpc_restore : List ℕ → ℕ → List ℕ → List ℕ
unfolding restore_loop
lpc_restore coeffs shift residual =
    let order = length coeffs in
    take order residual
    ++ restore_loop coeffs shift (rev_onto (take order residual) []) (drop order residual)

restore_loop-residual_loop :
    (coeffs : List ℕ) (shift : ℕ) (past xs : List ℕ)
    → All IsWord32 xs
    → restore_loop coeffs shift past (residual_loop coeffs shift past xs) ≡ xs
unfolding restore_loop residual_loop predict
restore_loop-residual_loop coeffs shift past [] h = refl
restore_loop-residual_loop coeffs shift past (x ∷ xs) (hx, h) =
    let p : ℕ = sar64 (weighted_sum 0 coeffs past) shift % 2 ^ 32 in
    let e : add32 (sub32 x p) p ≡ x = omega arith in
    rw (e, restore_loop-residual_loop coeffs shift (x ∷ past) xs h) refl

drop-Word32 : (n : ℕ) (xs : List ℕ) → All IsWord32 xs → All IsWord32 (drop n xs)
drop-Word32 zero xs h = h
drop-Word32 (suc n) [] h = tt
drop-Word32 (suc n) (x ∷ xs) (hx, h) = drop-Word32 n xs h

-- All warm-up.
lpc_short :
    (coeffs : List ℕ) (shift : ℕ) (samples : List ℕ)
    → length samples ≤ length coeffs
    → lpc_restore coeffs shift (lpc_residual_encode coeffs shift samples) ≡ samples
unfolding lpc_restore lpc_residual_encode restore_loop residual_loop
lpc_short coeffs shift samples le =
    let t = take_all (length coeffs) samples le in
    let d = drop_all (length coeffs) samples le in
    rw (d, t, append-nil samples, t, d) (append-nil samples)

-- `lpcRestoreGo` gives back the samples of which `lpcResidualEncodeGo` took the residual, for any
-- coefficients and shift, whatever the number and the values of the samples.
pub lpc_restore-lpc_residual_encode :
    (coeffs : List ℕ) (shift : ℕ) (samples : List ℕ)
    → All IsWord32 samples
    → lpc_restore coeffs shift (lpc_residual_encode coeffs shift samples) ≡ samples
unfolding lpc_restore lpc_residual_encode
lpc_restore-lpc_residual_encode coeffs shift samples h =
    let order : ℕ = length coeffs in
    let front : List ℕ = take order samples in
    let past : List ℕ = rev_onto front [] in
    let rest : List ℕ = residual_loop coeffs shift past (drop order samples) in
    let back =
      restore_loop-residual_loop coeffs shift past (drop order samples)
        (drop-Word32 order samples h) in
    elim (Bool-cases (leb order (length samples))) [
      | inl long ↦
          let len = length-take order samples (leb→le order (length samples) long) in
          let same_front : take order (front ++ rest) ≡ front =
            rw len at (take-append front rest) in
          let same_rest : drop order (front ++ rest) ≡ rest = rw len at (drop-append front rest) in
          rw (same_front, same_rest, back) (take-drop order samples)
      | inr short ↦
          lpc_short coeffs shift samples (omega (arith, leb→gt order (length samples) short))
    ]

-- ===== src/I32/Narrow/Restore.antt =====
-- `LPCRestore` and `LPCRestoreNarrow` against `lpcResidualEncodeGo`, over a whole block.
use go_flac.Prelude.{
  ℕ, ◌+◌, ◌-◌, ◌*◌, ◌^◌, ◌≤◌, ◌<◌, ◌≡◌, refl, ap, ◌∙◌, inl, inr, List, [], ◌∷◌, ◌++◌, All, true,
  false, ltb, leb, ◌==◌, ◌||◌, Bool-cases, arith, length, take, drop, min, take-append, drop-append,
  length-take, take-drop, take_all, drop_all, append-nil, leb→le, leb→gt, drop-All, length-append,
  length-drop, gt→leb, sym, map-All, if◌then◌else◌,
}
use go_flac.Prelude.Pow.{pow-pos, pow_mono, pow_split}
use native.Mathlib.Nat.{mul-le-mul_right}
use go_flac.Signed.{Fits}
use go_flac.I32.Past.{past-All}
use go_flac.I32.{add32, sub32, rev_onto}
use go_flac.I32.Fixed.{IsWord32}
use go_flac.I32.Lpc.{predict, residual_loop, lpc_residual_encode, lpc_restore-lpc_residual_encode}
use go_flac.I32.Narrow.{
  abs_sum, lpc_restore_narrow_safe, lpc_restore_clamped, predict_narrow, restore_loop_narrow,
  lpc_restore_go_narrow, lpc_restore_narrow, max_lpc_shift, max_lpc_shift_narrow,
  max_lpc_restore_order,
}
use go_flac.I32.Narrow.Exact.{IsWithin, predict_narrow-predict}

-- What the test says.
pub record IsSafe (coeffs : List ℕ) (bps shift : ℕ) : Type 0 where
  pub bps_pos : 1 ≤ bps
  pub bps_le : bps ≤ 32
  pub shift_le : shift ≤ 31
  pub order_le : length coeffs ≤ 32
  pub sum_lt : abs_sum coeffs < 2 ^ (32 - bps)

pub lpc_restore_narrow_safe-IsSafe :
    (coeffs : List ℕ) (bps shift : ℕ)
    → lpc_restore_narrow_safe coeffs bps shift ≡ true
    → IsSafe coeffs bps shift
unfolding lpc_restore_narrow_safe
lpc_restore_narrow_safe-IsSafe coeffs bps shift e = record {
  bps_pos = ground arith;
  bps_le = ground arith;
  shift_le = ground arith;
  order_le = ground arith;
  sum_lt = ground arith;
}

sum_bound : (a bps : ℕ) → 1 ≤ bps → bps ≤ 32 → a < 2 ^ (32 - bps) → a * 2 ^ (bps - 1) < 2 ^ 31
sum_bound a bps pos le lt =
    let whole : 2 ^ 31 ≡ 2 ^ (32 - bps) * 2 ^ (bps - 1) =
      pow_split 31 (32 - bps) (bps - 1) (omega arith) in
    let more : (a + 1) * 2 ^ (bps - 1) ≤ 2 ^ (32 - bps) * 2 ^ (bps - 1) =
      mul-le-mul_right (2 ^ (bps - 1)) (omega arith) in
    let p = pow-pos (bps - 1) in omega arith

pub Fits-IsWithin : (bps x : ℕ) → bps ≤ 32 → Fits 32 bps x → IsWithin (2 ^ (bps - 1)) x
Fits-IsWithin bps x le (word, small) =
    let low : 2 ^ (bps - 1) ≤ 2 ^ 31 = pow_mono (bps - 1) 31 (omega arith) in ground arith

restore_loop_narrow-residual_loop :
    (d shift : ℕ) (coeffs past xs : List ℕ)
    → abs_sum coeffs * d < 2 ^ 31
    → shift ≤ 31
    → All IsWord32 coeffs
    → All (IsWithin d) past
    → All IsWord32 xs
    → All (IsWithin d) xs
    → restore_loop_narrow coeffs shift past (residual_loop coeffs shift past xs) ≡ xs
unfolding restore_loop_narrow residual_loop predict
restore_loop_narrow-residual_loop d shift coeffs past [] lt le hc hp hw hx = refl
restore_loop_narrow-residual_loop d shift coeffs past (x ∷ xs) lt le hc hp (hw, hws) (hx, hxs) =
    let p : ℕ = predict coeffs shift past in
    let same : predict_narrow coeffs shift past ≡ p =
      predict_narrow-predict d shift coeffs past lt le hc hp in
    let back : add32 (sub32 x p) p ≡ x = omega arith in
    let rest =
      restore_loop_narrow-residual_loop d shift coeffs (x ∷ past) xs lt le hc (hx, hp) hws hxs in
    rw (same, back, rest) refl

length-residual_loop :
    (coeffs : List ℕ) (shift : ℕ) (past xs : List ℕ)
    → length (residual_loop coeffs shift past xs) ≡ length xs
unfolding residual_loop
length-residual_loop coeffs shift past [] = refl
length-residual_loop coeffs shift past (x ∷ xs) =
    omega (arith, length-residual_loop coeffs shift (x ∷ past) xs)

length-lpc_residual_encode :
    (coeffs : List ℕ) (shift : ℕ) (samples : List ℕ)
    → length (lpc_residual_encode coeffs shift samples) ≡ length samples
unfolding lpc_residual_encode
length-lpc_residual_encode coeffs shift samples =
    let order : ℕ = length coeffs in
    let front : List ℕ = take order samples in
    let past : List ℕ = rev_onto front [] in
    let rest : List ℕ = drop order samples in
    length-append front (residual_loop coeffs shift past rest)
    ∙ ap (λ (k : ℕ). length front + k) (length-residual_loop coeffs shift past rest)
    ∙ sym (length-append front rest)
    ∙ ap (λ (l : List ℕ). length l) (take-drop order samples)

lpc_restore_go_narrow-lpc_residual_encode :
    (coeffs : List ℕ) (shift bps : ℕ) (samples : List ℕ)
    → 1 ≤ length coeffs
    → length coeffs < length samples
    → lpc_restore_narrow_safe coeffs bps shift ≡ true
    → All IsWord32 coeffs
    → All IsWord32 samples
    → All (IsWithin (2 ^ (bps - 1))) samples
    → lpc_restore_go_narrow (lpc_residual_encode coeffs shift samples) coeffs shift ≡ samples
unfolding lpc_restore_go_narrow lpc_residual_encode
lpc_restore_go_narrow-lpc_residual_encode coeffs shift bps samples pos long safe hc hw h =
    let t : IsSafe coeffs bps shift = lpc_restore_narrow_safe-IsSafe coeffs bps shift safe in
    let order : ℕ = length coeffs in
    let d : ℕ = 2 ^ (bps - 1) in
    let front : List ℕ = take order samples in
    let past : List ℕ = rev_onto front [] in
    let rest : List ℕ = residual_loop coeffs shift past (drop order samples) in
    let len : length front ≡ order = length-take order samples (omega arith) in
    let none_out : ltb order 1 || ltb max_lpc_restore_order order ≡ false =
      ground (arith, t.order_le) in
    let same_front : take order (front ++ rest) ≡ front = rw len at (take-append front rest) in
    let same_rest : drop order (front ++ rest) ≡ rest = rw len at (drop-append front rest) in
    let kept : min shift max_lpc_shift_narrow ≡ shift = omega (arith, t.shift_le) in
    let more : leb (length (front ++ rest)) order ≡ false = gt→leb (length (front ++ rest)) order (
      omega (
        arith,
        length-append front rest,
        length-residual_loop coeffs shift past (drop order samples),
        length-drop order samples,
      )) in
    let back =
      restore_loop_narrow-residual_loop d shift coeffs past (drop order samples)
        (sum_bound (abs_sum coeffs) bps t.bps_pos t.bps_le t.sum_lt) t.shift_le hc
        (past-All (IsWithin d) order samples h) (drop-All IsWord32 order samples hw)
        (drop-All (IsWithin d) order samples h) in
    rw (none_out, more, same_front, same_rest, kept, back) (take-drop order samples)

-- A block that is all warm-up.
short_back :
    (coeffs : List ℕ) (shift : ℕ) (samples : List ℕ)
    → length samples ≤ length coeffs
    → lpc_residual_encode coeffs shift samples ≡ samples
unfolding lpc_residual_encode residual_loop
short_back coeffs shift samples le =
    let t = take_all (length coeffs) samples le in
    let d = drop_all (length coeffs) samples le in rw (d, t) (append-nil samples)

-- `LPCRestore` at the shifts of the format.
pub lpc_restore_clamped-lpc_residual_encode :
    (coeffs : List ℕ) (shift : ℕ) (samples : List ℕ)
    → 1 ≤ length coeffs
    → shift ≤ 63
    → All IsWord32 samples
    → lpc_restore_clamped (lpc_residual_encode coeffs shift samples) coeffs shift ≡ samples
unfolding lpc_restore_clamped
lpc_restore_clamped-lpc_residual_encode coeffs shift samples pos le hw =
    let kept : min shift max_lpc_shift ≡ shift = omega arith in
    let some_order : (length coeffs == 0) ≡ false = ground arith in
    let back = lpc_restore-lpc_residual_encode coeffs shift samples hw in
    let len : length (lpc_residual_encode coeffs shift samples) ≡ length samples =
      length-lpc_residual_encode coeffs shift samples in
    elim (Bool-cases (leb (length samples) (length coeffs))) [
      | inl e ↦
          let le' = leb→le (length samples) (length coeffs) e in
          rw (some_order, len, e) (short_back coeffs shift samples le')
      | inr e ↦ rw (some_order, len, e, kept) back
    ]

narrow_cases :
    (ceiling : ℕ) (residual coeffs : List ℕ) (shift : ℕ)
    → lpc_restore_narrow ceiling residual coeffs shift ≡ (
        if length coeffs == 0 || leb (length residual) (length coeffs)
        then residual
        else if leb (length coeffs) ceiling
        then lpc_restore_go_narrow residual coeffs (min shift max_lpc_shift_narrow)
        else lpc_restore_clamped residual coeffs shift)
unfolding lpc_restore_narrow
narrow_cases ceiling residual coeffs shift = refl

-- `LPCRestoreNarrow` gives back the samples of which `lpcResidualEncodeGo` took the residual, at any
-- ceiling of the architecture, if there is a coefficient, `LPCRestoreNarrowSafe` holds of the
-- coefficients, the width and the shift, and the width holds every sample.
pub lpc_restore_narrow-lpc_residual_encode :
    (ceiling : ℕ) (coeffs : List ℕ) (shift bps : ℕ) (samples : List ℕ)
    → 1 ≤ length coeffs
    → lpc_restore_narrow_safe coeffs bps shift ≡ true
    → All IsWord32 coeffs
    → All (Fits 32 bps) samples
    → lpc_restore_narrow ceiling (lpc_residual_encode coeffs shift samples) coeffs shift ≡ samples
lpc_restore_narrow-lpc_residual_encode ceiling coeffs shift bps samples pos safe hc h =
    let t : IsSafe coeffs bps shift = lpc_restore_narrow_safe-IsSafe coeffs bps shift safe in
    let hw : All IsWord32 samples = map-All (λ x f. f.0) samples h in
    let hd : All (IsWithin (2 ^ (bps - 1))) samples =
      map-All (λ x f. Fits-IsWithin bps x t.bps_le f) samples h in
    let kept : min shift max_lpc_shift_narrow ≡ shift = omega (arith, t.shift_le) in
    let some_order : (length coeffs == 0) ≡ false = ground arith in
    let len : length (lpc_residual_encode coeffs shift samples) ≡ length samples =
      length-lpc_residual_encode coeffs shift samples in
    narrow_cases ceiling (lpc_residual_encode coeffs shift samples) coeffs shift
    ∙ elim (Bool-cases (leb (length samples) (length coeffs))) [
      | inl e ↦
          let le' = leb→le (length samples) (length coeffs) e in
          rw (some_order, len, e) (short_back coeffs shift samples le')
      | inr e ↦ elim (Bool-cases (leb (length coeffs) ceiling)) [
        | inl low ↦
            rw (some_order, len, e, low, kept)
              (lpc_restore_go_narrow-lpc_residual_encode coeffs shift bps samples pos
                (leb→gt (length samples) (length coeffs) e) safe hc hw hd)
        | inr high ↦
            rw (some_order, len, e, high)
              (lpc_restore_clamped-lpc_residual_encode coeffs shift samples pos
                (omega (arith, t.shift_le)) hw)
      ]
    ]

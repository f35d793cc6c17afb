-- ===== src/I32/Narrow/Exact.antt =====
-- Accumulating in `int32` predicts what accumulating in `int64` does, where
-- `LPCRestoreNarrowSafe` holds.
use go_flac.Prelude.{
  ℕ, ◌+◌, ◌-◌, ◌*◌, ◌%◌, ◌^◌, ◌≤◌, ◌<◌, ◌≡◌, refl, sym, ap, ◌∙◌, ◌⊎◌, inl, inr, List, [], ◌∷◌, All,
  true, false, ltb, Bool-cases, arith, ge→ltb, lt→ltb,
}
use native.Mathlib.Nat.{div-le_self, mod-eq_of_lt, mul-le-mul}
use go_flac.Signed.{sar}
use go_flac.I32.{dot}
use go_flac.I32.Fixed.{IsWord32}
use go_flac.I32.Lpc.{widen32, sar64, weighted_sum, predict}
use go_flac.I32.Narrow.{magnitude, abs_sum, predict_narrow}

-- The 64-bit pattern of a number of magnitude at most `b`.
abbrev pub Within : ℕ → ℕ → Type 0
Within b a = (a ≤ b) ⊎ ((a < 2 ^ 64) × (2 ^ 64 ≤ a + b))

Within-add :
    (b c x y : ℕ) → b + c < 2 ^ 63 → Within b x → Within c y → Within (b + c) ((x + y) % 2 ^ 64)
Within-add b c x y lt hx hy = ground arith

-- Two negative factors.
neg-neg : (c x s t : ℕ) → c + s ≡ 2 ^ 64 → x + t ≡ 2 ^ 64 → s * t < 2 ^ 64 → c * x % 2 ^ 64 ≡ s * t
neg-neg c x s t ec ex lt =
    let first = ap (λ (k : ℕ). k * x) ec in
    let second = ap (λ (k : ℕ). s * k) ex in omega (arith, first, second)

-- One negative factor.
neg-pos :
    (c x s : ℕ)
    → c + s ≡ 2 ^ 64
    → s * x < 2 ^ 63
    → (c * x % 2 ^ 64 ≡ 0) × (s * x ≡ 0) ⊎ (c * x % 2 ^ 64 ≡ 2 ^ 64 - s * x) × (1 ≤ s * x)
neg-pos c x s ec lt =
    let first : c * x + s * x ≡ 2 ^ 64 * x = omega (arith, ap (λ (k : ℕ). k * x) ec) in ground arith

Within-mul :
    (b d c x : ℕ) → b * d < 2 ^ 63 → Within b c → Within d x → Within (b * d) (c * x % 2 ^ 64)
Within-mul b d c x lt (inl hc) (inl hx) =
    let le : c * x ≤ b * d = mul-le-mul hc hx in inl (omega arith)
Within-mul b d c x lt (inr (lc, hc)) (inl hx) =
    let s : ℕ = 2 ^ 64 - c in
    let le : s * x ≤ b * d = mul-le-mul (omega arith) hx in
    let e = neg-pos c x s (omega arith) (omega arith) in ground arith
Within-mul b d c x lt (inl hc) (inr (lx, hx)) =
    let s : ℕ = 2 ^ 64 - x in
    let le : c * s ≤ b * d = mul-le-mul hc (omega arith) in
    let swap : s * c ≡ c * s = omega arith in
    let swap' : x * c ≡ c * x = omega arith in
    let e = neg-pos x c s (omega arith) (omega arith) in
    let w : Within (b * d) (x * c % 2 ^ 64) = ground arith in rw swap' at w
Within-mul b d c x lt (inr (lc, hc)) (inr (lx, hx)) =
    let s : ℕ = 2 ^ 64 - c in
    let t : ℕ = 2 ^ 64 - x in
    let le : s * t ≤ b * d = mul-le-mul (omega arith) (omega arith) in
    let e = neg-neg c x s t (omega arith) (omega arith) (omega arith) in inl (omega arith)

-- Shifting a number of 32 bits, as one of 64 bits or of 32.
sar-narrow : (b a k : ℕ) → b < 2 ^ 31 → Within b a → sar 32 (a % 2 ^ 32) k ≡ sar64 a k % 2 ^ 32
unfolding sar
sar-narrow b a k lt (inl le) =
    let kept : a % 2 ^ 32 ≡ a = omega arith in
    let less = div-le_self a (2 ^ k) in
    let narrow : ltb a (2 ^ 31) ≡ true = lt→ltb a (2 ^ 31) (omega arith) in
    let wide : ltb a (2 ^ 63) ≡ true = lt→ltb a (2 ^ 63) (omega arith) in
    rw (kept, narrow, wide) (sym (mod-eq_of_lt (omega arith)))
sar-narrow b a k lt (inr (word, le)) =
    let s : ℕ = 2 ^ 64 - 1 - a in
    let kept : a % 2 ^ 32 ≡ 2 ^ 32 - 1 - s = omega arith in
    let again : 2 ^ 32 - 1 - (2 ^ 32 - 1 - s) ≡ s = omega arith in
    let less = div-le_self s (2 ^ k) in
    let narrow : ltb (2 ^ 32 - 1 - s) (2 ^ 31) ≡ false =
      ge→ltb (2 ^ 32 - 1 - s) (2 ^ 31) (omega arith) in
    let wide : ltb a (2 ^ 63) ≡ false = ge→ltb a (2 ^ 63) (omega arith) in
    rw (kept, narrow, wide, again) (omega arith)

-- Extending the sign adds a multiple of 2 ^ 32.
pub widen32-parts : (x : ℕ) → (t : ℕ) × (widen32 x ≡ x + 2 ^ 32 * t)
widen32-parts x = elim (Bool-cases (ltb x (2 ^ 31))) [
  | inl e ↦ (0, rw e (omega arith))
  | inr e ↦ (2 ^ 32 - 1, rw e (omega arith))
]

product_low :
    (acc c x c' x' t u : ℕ)
    → c' ≡ c + 2 ^ 32 * t
    → x' ≡ x + 2 ^ 32 * u
    → (acc + c' * x') % 2 ^ 64 % 2 ^ 32 ≡ (acc % 2 ^ 32 + c * x % 2 ^ 32) % 2 ^ 32
product_low acc c x c' x' t u ec ex =
    let parts : c' * x' ≡ c * x + 2 ^ 32 * (c * u + t * x + 2 ^ 32 * (t * u)) =
      rw (ec, ex) (omega arith) in
    rw parts (omega arith)

-- The sum in `int32` is the low half of the sum in `int64`.
dot-weighted_sum :
    (acc : ℕ) (cs xs : List ℕ) → dot (acc % 2 ^ 32) cs xs ≡ weighted_sum acc cs xs % 2 ^ 32
unfolding dot weighted_sum
dot-weighted_sum acc [] xs = refl
dot-weighted_sum acc (c ∷ cs) [] = refl
dot-weighted_sum acc (c ∷ cs) (x ∷ xs) =
    let (t, ec) = widen32-parts c in
    let (u, ex) = widen32-parts x in
    let e = product_low acc c x (widen32 c) (widen32 x) t u ec ex in
    ap (λ (k : ℕ). dot k cs xs) (sym e)
    ∙ dot-weighted_sum ((acc + widen32 c * widen32 x) % 2 ^ 64) cs xs

Within-widen32 : (c : ℕ) → IsWord32 c → Within (magnitude c) (widen32 c)
Within-widen32 c lt = ground arith

-- A sample of magnitude at most `d`.
abbrev pub IsWithin : ℕ → ℕ → Type 0
IsWithin d x = Within d (widen32 x)

Within-weighted_sum :
    (b d acc : ℕ) (cs xs : List ℕ)
    → b + abs_sum cs * d < 2 ^ 63
    → Within b acc
    → All IsWord32 cs
    → All (IsWithin d) xs
    → Within (b + abs_sum cs * d) (weighted_sum acc cs xs)
unfolding abs_sum weighted_sum
Within-weighted_sum b d acc [] xs lt h hc hx = ground arith
Within-weighted_sum b d acc (c ∷ cs) [] lt h hc hx = elim h [
  | inl le ↦ inl (omega arith)
  | inr (word, le) ↦ inr (word, omega arith)
]
Within-weighted_sum b d acc (c ∷ cs) (x ∷ xs) lt h (hc, hcs) (hx, hxs) =
    let total : b + (magnitude c + abs_sum cs) * d ≡ b + magnitude c * d + abs_sum cs * d =
      omega arith in
    let term : Within (magnitude c * d) (widen32 c * widen32 x % 2 ^ 64) =
      Within-mul (magnitude c) d (widen32 c) (widen32 x) (omega arith) (Within-widen32 c hc) hx in
    let sum = Within-add b (magnitude c * d) acc _ (omega arith) h term in
    let same : (acc + widen32 c * widen32 x % 2 ^ 64) % 2 ^ 64
        ≡ (acc + widen32 c * widen32 x) % 2 ^ 64 =
      omega arith in
    rw total
      (Within-weighted_sum (b + magnitude c * d) d _ cs xs (omega arith) (rw same at sum) hcs hxs)

-- The prediction from samples of magnitude at most `d`, for shifts below 32.
pub predict_narrow-predict :
    (d shift : ℕ) (coeffs past : List ℕ)
    → abs_sum coeffs * d < 2 ^ 31
    → shift ≤ 31
    → All IsWord32 coeffs
    → All (IsWithin d) past
    → predict_narrow coeffs shift past ≡ predict coeffs shift past
unfolding predict_narrow predict
predict_narrow-predict d shift coeffs past lt le hc hx =
    let same : shift % 32 ≡ shift = omega arith in
    let low : dot 0 coeffs past ≡ weighted_sum 0 coeffs past % 2 ^ 32 =
      dot-weighted_sum 0 coeffs past in
    let small = Within-weighted_sum 0 d 0 coeffs past (omega arith) (inl (omega arith)) hc hx in
    rw (same, low) (sar-narrow (0 + abs_sum coeffs * d) _ shift (omega arith) small)

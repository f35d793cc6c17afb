-- ===== src/Signed/Shift.antt =====
-- Shifting out low bits that are zero, and shifting them in again.
use go_flac.Prelude.{
  ℕ, zero, suc, ◌+◌, ◌-◌, ◌*◌, ◌/◌, ◌%◌, ◌^◌, ◌≤◌, ◌<◌, ◌≡◌, ap, ◌∙◌, ◌⊎◌, inl, inr, true, false,
  ltb, ge→ltb, lt→ltb, arith,
}
use go_flac.Prelude.Pow.{
  pow-pos, pow_mono, pow_split, shifted-lt, div-lt-pow, fields_mod, fields_div,
}
use native.Mathlib.Nat.{div-add-mod', mod-eq_of_lt, mul-le-mul_right, div-le_self}
use go_flac.Signed.{shl_w, sar, Fits}

-- The quotient of a number one below a multiple.
pred-div : (q k : ℕ) → 1 ≤ q → (q * 2 ^ k - 1) / 2 ^ k ≡ q - 1
pred-div zero k pos = absurd (omega arith)
pred-div (suc p) k pos =
    let one = pow-pos k in
    let parts : suc p * 2 ^ k - 1 ≡ p * 2 ^ k + (2 ^ k - 1) = omega arith in
    ap (λ (t : ℕ). t / 2 ^ k) parts ∙ fields_div p (2 ^ k - 1) k (omega arith) ∙ omega arith

cancel-le : (a b k : ℕ) → a * 2 ^ k ≤ b * 2 ^ k → a ≤ b
cancel-le a b k h =
    let one = pow-pos k in
    elim (le_or_lt a b) [
      | inl le ↦ le
      | inr lt ↦
          let more : (b + 1) * 2 ^ k ≤ a * 2 ^ k = mul-le-mul_right (2 ^ k) (omega arith) in
          absurd (omega arith)
    ]
  where
    le_or_lt : (a b : ℕ) → (a ≤ b) ⊎ (b < a)
    le_or_lt a b = ground arith

-- A multiple of 2 ^ k in `bps` bits, from 2 ^ (w - 1) on: what it lacks to 2 ^ w.
negative :
    (w bps k q : ℕ)
    → k < bps
    → bps ≤ w
    → 1 ≤ q
    → q * 2 ^ k ≤ 2 ^ (bps - 1)
    → (sar w (2 ^ w - q * 2 ^ k) k ≡ 2 ^ w - q)
      × (shl_w w (2 ^ w - q) k ≡ 2 ^ w - q * 2 ^ k)
      × Fits w (bps - k) (2 ^ w - q)
unfolding sar
negative w bps k q lt le pos small =
    let t : ℕ = q * 2 ^ k in
    let p = pow-pos k in
    let one : 2 ^ k ≤ t = omega (arith, mul-le-mul_right (2 ^ k) pos) in
    let half : 2 ^ (bps - 1) ≤ 2 ^ (w - 1) = pow_mono (bps - 1) (w - 1) (omega arith) in
    let twice : 2 ^ w ≡ 2 ^ 1 * 2 ^ (w - 1) = pow_split w 1 (w - 1) (omega arith) in
    let split : 2 ^ (bps - 1) ≡ 2 ^ (bps - k - 1) * 2 ^ k =
      pow_split (bps - 1) (bps - k - 1) k (omega arith) in
    let few : q ≤ 2 ^ (bps - k - 1) = cancel-le q (2 ^ (bps - k - 1)) k (omega arith) in
    let q_le : q ≤ t = omega (arith, mul-le-mul_right q p) in
    let high : ltb (2 ^ w - t) (2 ^ (w - 1)) ≡ false =
      ge→ltb (2 ^ w - t) (2 ^ (w - 1)) (omega arith) in
    let rest : 2 ^ w - 1 - (2 ^ w - t) ≡ t - 1 = omega arith in
    let first : (2 ^ w - q) * 2 ^ k + q * 2 ^ k ≡ 2 ^ w * 2 ^ k =
      let e : 2 ^ w - q + q ≡ 2 ^ w = omega arith in omega (arith, ap (λ (x : ℕ). x * 2 ^ k) e) in
    let second : (2 ^ k - 1) * 2 ^ w + 2 ^ w ≡ 2 ^ w * 2 ^ k =
      let e : 2 ^ k - 1 + 1 ≡ 2 ^ k = omega arith in omega (arith, ap (λ (x : ℕ). x * 2 ^ w) e) in
    let shifted : (2 ^ w - q) * 2 ^ k ≡ (2 ^ k - 1) * 2 ^ w + (2 ^ w - t) = omega arith in
    (
      rw (high, rest, pred-div q k pos) (omega arith),
      ap (λ (x : ℕ). x % 2 ^ w) shifted ∙ fields_mod (2 ^ k - 1) (2 ^ w - t) w (omega arith),
      (omega arith, inr (omega arith)),
    )

-- `x >> k << k`, for a multiple of 2 ^ k that `bps` bits hold: the shift to the right leaves `k`
-- bits fewer, and the shift to the left brings `x` back.
pub shl_w-sar :
    (w bps k x : ℕ)
    → k < bps
    → bps ≤ w
    → x % 2 ^ k ≡ 0
    → Fits w bps x
    → (shl_w w (sar w x k) k ≡ x) × Fits w (bps - k) (sar w x k)
unfolding sar
shl_w-sar w bps k x lt le divides (word, inl small) =
    let half : 2 ^ (bps - 1) ≤ 2 ^ (w - 1) = pow_mono (bps - 1) (w - 1) (omega arith) in
    let low : ltb x (2 ^ (w - 1)) ≡ true = lt→ltb x (2 ^ (w - 1)) (omega arith) in
    let whole : x / 2 ^ k * 2 ^ k ≡ x = omega (arith, div-add-mod' x (2 ^ k)) in
    let e : bps - k - 1 + k ≡ bps - 1 = omega arith in
    rw low (rw whole (mod-eq_of_lt word), (fewer, inl (div-lt-pow x (bps - k - 1) k (rw e small))))
  where
    fewer : x / 2 ^ k < 2 ^ w
    fewer = omega (arith, div-le_self x (2 ^ k))
shl_w-sar w bps k x lt le divides (word, inr high) =
    let a : ℕ = x / 2 ^ k in
    let whole : a * 2 ^ k ≡ x = omega (arith, div-add-mod' x (2 ^ k)) in
    let all : 2 ^ w ≡ 2 ^ (w - k) * 2 ^ k = pow_split w (w - k) k (omega arith) in
    let q : ℕ = 2 ^ (w - k) - a in
    let below : a ≤ 2 ^ (w - k) = cancel-le a (2 ^ (w - k)) k (omega arith) in
    let back : q + a ≡ 2 ^ (w - k) = omega arith in
    let parts : q * 2 ^ k + a * 2 ^ k ≡ 2 ^ (w - k) * 2 ^ k =
      omega (arith, ap (λ (x : ℕ). x * 2 ^ k) back) in
    let same : 2 ^ w - q * 2 ^ k ≡ x = omega arith in
    let pos : 1 ≤ q = positive q x (2 ^ k) (omega arith) in
    let (down, up, fits) = negative w bps k q lt le pos (omega arith) in
    let down' : sar w x k ≡ 2 ^ w - q = rw same at down in
    (ap (λ (t : ℕ). shl_w w t k) down' ∙ up ∙ same, rw down' fits)
  where
    positive : (q x n : ℕ) → 1 ≤ q * n → 1 ≤ q
    positive zero x n h = omega arith
    positive (suc q) x n h = omega arith

-- Shifting in `k` zeros, for a number that leaves room for them.
pub shl_w-Fits : (w bps k x : ℕ) → k < bps → bps ≤ w → Fits w (bps - k) x → Fits w bps (shl_w w x k)
shl_w-Fits w bps k x lt le (word, inl small) =
    let half : 2 ^ (bps - 1) ≤ 2 ^ w = pow_mono (bps - 1) w (omega arith) in
    let e : bps - k - 1 + k ≡ bps - 1 = omega arith in
    let less : x * 2 ^ k < 2 ^ (bps - 1) = rw e at (shifted-lt x (bps - k - 1) k small) in
    let same : x * 2 ^ k % 2 ^ w ≡ x * 2 ^ k = mod-eq_of_lt (omega arith) in
    rw same (omega arith, inl less)
shl_w-Fits w bps k x lt le (word, inr near) =
    let q : ℕ = 2 ^ w - x in
    let split : 2 ^ (bps - 1) ≡ 2 ^ (bps - k - 1) * 2 ^ k =
      pow_split (bps - 1) (bps - k - 1) k (omega arith) in
    let few : q * 2 ^ k ≤ 2 ^ (bps - k - 1) * 2 ^ k = mul-le-mul_right (2 ^ k) (omega arith) in
    let at_most : q * 2 ^ k ≤ 2 ^ (bps - 1) = omega arith in
    let back : 2 ^ w - q ≡ x = omega arith in
    let shifted : shl_w w (2 ^ w - q) k ≡ 2 ^ w - q * 2 ^ k =
      (negative w bps k q lt le (omega arith) at_most).1 in
    let half : 2 ^ (bps - 1) ≤ 2 ^ w = pow_mono (bps - 1) w (omega arith) in
    let some_left : 1 * 2 ^ k ≤ q * 2 ^ k = mul-le-mul_right (2 ^ k) (omega arith) in
    let one : 1 ≤ q * 2 ^ k = omega (arith, some_left, pow-pos k) in
    let same : x * 2 ^ k % 2 ^ w ≡ 2 ^ w - q * 2 ^ k = rw back at shifted in
    rw same (omega arith, inr (omega arith))

-- ===== src/Rice/Samples.antt =====
-- The signed fields that a reader returns, whatever the input.
use go_flac.Prelude.{
  ℕ, zero, suc, ◌+◌, ◌-◌, ◌*◌, ◌/◌, ◌%◌, ◌^◌, ◌≤◌, ◌<◌, ◌≡◌, refl, ap, ◌∙◌, ◌⊎◌, inl, inr, List,
  ◌∷◌, All, length, false, ltb, ◌==◌, Bool-cases, ltb→lt, ltb→ge, arith,
}
use go_flac.Prelude.Pow.{pow-pos, pow_split, pow_mono, two-pow-suc, fields_mod, shifted-lt}
use native.Mathlib.Nat.{mod-lt, div-add-mod', mod-eq_of_lt}
use go_flac.Signed.{Fits}
use go_flac.Bitio.Reader.{pure, ◌>>=◌}
use go_flac.Bitio.Reader.Read.{read_bits, read_signed, sign_extend}
use go_flac.Bitio.Reader.Every.{Every, Every-then, Every-any}
use go_flac.Rice.{read_raws}
use go_flac.Rice.Raw.{sign_extend_lem, low_negative}

abbrev pub IsWord : ℕ → ℕ → Type 0
IsWord w x = x < 2 ^ w

-- Only the low bits of a field count.
sign_extend-mod : (m u : ℕ) → m < 64 → sign_extend (suc m) u ≡ sign_extend (suc m) (u % 2 ^ suc m)
unfolding sign_extend
sign_extend-mod m u lt =
    let k : ℕ = 64 - suc m in
    let p : ℕ = 2 ^ suc m in
    let r : ℕ = u % p in
    let small : r < p = mod-lt u (pow-pos (suc m)) in
    let e : suc m + k ≡ 64 = omega arith in
    let low : r * 2 ^ k < 2 ^ 64 = rw e at (shifted-lt r (suc m) k small) in
    let whole : 2 ^ 64 ≡ p * 2 ^ k = pow_split 64 (suc m) k (omega arith) in
    let digits : u / p * p + r ≡ u = div-add-mod' u p in
    let parts : u * 2 ^ k ≡ u / p * 2 ^ 64 + r * 2 ^ k =
      omega (arith, ap (λ (t : ℕ). t * 2 ^ k) digits, ap (λ (t : ℕ). u / p * t) whole) in
    let kept : u * 2 ^ k % 2 ^ 64 ≡ r * 2 ^ k =
      ap (λ (t : ℕ). t % 2 ^ 64) parts ∙ fields_mod (u / p) (r * 2 ^ k) 64 low in
    let kept' : r * 2 ^ k % 2 ^ 64 ≡ r * 2 ^ k = mod-eq_of_lt low in rw (kept, kept') refl

extended :
    (m u : ℕ)
    → m < 64
    → (sign_extend (suc m) u < 2 ^ m)
      ⊎ ((sign_extend (suc m) u < 2 ^ 64) × (2 ^ 64 ≤ sign_extend (suc m) u + 2 ^ m))
extended m u lt =
    let r : ℕ = u % 2 ^ suc m in
    let small : r < 2 ^ suc m = mod-lt u (pow-pos (suc m)) in
    let double = two-pow-suc m in
    let room = pow_mono (suc m) 64 (omega arith) in
    rw (sign_extend-mod m u lt, sign_extend_lem m r lt small)
      (elim (Bool-cases (ltb r (2 ^ m))) [
        | inl low ↦ let below : r < 2 ^ m = ltb→lt r (2 ^ m) low in rw low (inl below)
        | inr high ↦
            let above : 2 ^ m ≤ r = ltb→ge r (2 ^ m) high in
            rw high (inr (omega arith, omega arith))
      ])

-- A sign-extended field as a pattern of `w` bits.
extended-Fits : (w m u : ℕ) → w ≤ 64 → suc m ≤ w → Fits w (suc m) (sign_extend (suc m) u % 2 ^ w)
extended-Fits w m u le within = elim (extended m u (omega arith)) [
  | inl low ↦
      let same : v % 2 ^ w ≡ v = mod-eq_of_lt (omega (arith, pow_mono m w (omega arith))) in
      rw (same, top) (omega (arith, pow_mono m w (omega arith)), inl low)
  | inr (word, near) ↦
      let more = pow_mono m w (omega arith) in
      let t : ℕ = 2 ^ 64 - v in
      let pos = pow-pos m in
      let back : 2 ^ 64 - t ≡ v = omega arith in
      let e : suc (w - 1) ≡ w = omega arith in
      let reduced : (2 ^ 64 - t) % 2 ^ suc (w - 1) ≡ 2 ^ suc (w - 1) - t =
        low_negative (w - 1) t (omega arith) (omega arith) (rw e (omega arith)) in
      let same : v % 2 ^ w ≡ 2 ^ w - t = rw (e, back) at reduced in
      rw (same, top) (omega arith, inr (omega arith))
]
  where
    v : ℕ
    v = sign_extend (suc m) u

    top : suc m - 1 ≡ m
    top = omega arith

pub read_signed-Fits :
    (w n : ℕ) → w ≤ 64 → 1 ≤ n → n ≤ w → Every (λ v. Fits w n (v % 2 ^ w)) (read_signed n)
unfolding read_signed
read_signed-Fits w zero le pos within = absurd (omega arith)
read_signed-Fits w (suc m) le pos within =
    let e : (suc m == 0) ≡ false = ground arith in
    rw e (
      Every-then (λ u. Unit) (λ v. Fits w (suc m) (v % 2 ^ w)) (read_bits (suc m))
        (λ u. pure (sign_extend (suc m) u)) (Every-any (read_bits (suc m)))
        (λ u h b. extended-Fits w m u le within))

-- A list of so many numbers of which `P` holds.
abbrev pub Count : (ℕ → Type 0) → ℕ → List ℕ → Type 0
Count P n s = (length s ≡ n) × All P s

pub read_raws-Fits :
    (w bits n : ℕ)
    → w ≤ 64
    → 1 ≤ bits
    → bits ≤ w
    → Every (Count (Fits w bits) n) (read_raws w bits n)
unfolding read_raws
read_raws-Fits w bits zero le pos within = λ b. (refl, tt)
read_raws-Fits w bits (suc n) le pos within =
    Every-then (λ v. Fits w bits (v % 2 ^ w)) (Count (Fits w bits) (suc n)) (read_signed bits)
      (λ v. read_raws w bits n >>= λ rest. pure (v % 2 ^ w ∷ rest))
      (read_signed-Fits w bits le pos within)
      (λ v f.
        Every-then (Count (Fits w bits) n) (Count (Fits w bits) (suc n)) (read_raws w bits n)
          (λ rest. pure (v % 2 ^ w ∷ rest)) (read_raws-Fits w bits n le pos within)
          (λ rest h b. (ap suc h.0, (f, h.1))))

-- Words only, for any width of the fields, 0 included.
pub read_raws-Words : (w bits n : ℕ) → Every (Count (IsWord w) n) (read_raws w bits n)
unfolding read_raws
read_raws-Words w bits zero = λ b. (refl, tt)
read_raws-Words w bits (suc n) =
    Every-then (λ v. Unit) (Count (IsWord w) (suc n)) (read_signed bits)
      (λ v. read_raws w bits n >>= λ rest. pure (v % 2 ^ w ∷ rest)) (Every-any (read_signed bits))
      (λ v f.
        Every-then (Count (IsWord w) n) (Count (IsWord w) (suc n)) (read_raws w bits n)
          (λ rest. pure (v % 2 ^ w ∷ rest)) (read_raws-Words w bits n)
          (λ rest h b. (ap suc h.0, (mod-lt v (pow-pos w), h.1))))

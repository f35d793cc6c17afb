-- ===== src/Prelude/Pow.antt =====
-- Powers of two: sums of exponents, and division and remainder by them at every exponent.
use Prim.Native.Nat.{ℕ, zero, suc, ◌+◌, ◌*◌, ◌/◌, ◌%◌, ◌^◌, ◌≤◌, ◌<◌}
use mathlib.Core.Path.{◌≡◌, sym, ap, ◌∙◌}
use native.Mathlib.Nat.{
  pow-suc, one-le-pow, div-div-eq-div-mul, mul-add-div_right, mul-add-mod_self_right, div-eq_of_lt,
  mod-eq_of_lt, pow-le-pow_right, div-lt_iff_lt-mul, div-add-mod', mul_comm, mod-lt,
}
use native.Mathlib.Omega.{arith}

pub pow-pos : (n : ℕ) → 0 < 2 ^ n
pow-pos n = one-le-pow n 2 (omega arith)

pub two-pow-suc : (n : ℕ) → 2 ^ suc n ≡ 2 * 2 ^ n
two-pow-suc n = omega (arith, pow-suc 2 n)

pub pow-add : (m n : ℕ) → 2 ^ (m + n) ≡ 2 ^ m * 2 ^ n
pow-add zero n = let e : 0 + n ≡ n = omega arith in rw e (omega arith)
pow-add (suc m) n =
    let e : suc m + n ≡ suc (m + n) = omega arith in
    rw (e, two-pow-suc (m + n), two-pow-suc m, pow-add m n) (omega arith)

-- 2 ^ n at a known split of the exponent.
pub pow_split : (k m n : ℕ) → k ≡ m + n → 2 ^ k ≡ 2 ^ m * 2 ^ n
pow_split k m n e = rw e (pow-add m n)

pub div_pow-add : (v m n : ℕ) → v / 2 ^ (m + n) ≡ v / 2 ^ n / 2 ^ m
div_pow-add v m n =
    rw (pow-add m n, mul_comm (2 ^ m) (2 ^ n)) (sym (div-div-eq-div-mul v (2 ^ n) (2 ^ m)))

pub fields_div : (q r n : ℕ) → r < 2 ^ n → (q * 2 ^ n + r) / 2 ^ n ≡ q
fields_div q r n h = mul-add-div_right (pow-pos n) q r ∙ rw (div-eq_of_lt h) (omega arith)

pub fields_mod : (q r n : ℕ) → r < 2 ^ n → (q * 2 ^ n + r) % 2 ^ n ≡ r
fields_mod q r n h = mul-add-mod_self_right q (2 ^ n) r ∙ mod-eq_of_lt h

pub div-lt-pow : (v m n : ℕ) → v < 2 ^ (m + n) → v / 2 ^ n < 2 ^ m
div-lt-pow v m n h = (div-lt_iff_lt-mul (pow-pos n)).1 (rw (pow-add m n) at h)

-- A field shifted left by n stays below its width plus n.
pub shifted-lt : (v m n : ℕ) → v < 2 ^ m → v * 2 ^ n < 2 ^ (m + n)
shifted-lt v m n h = rw (pow-add m n) (let p = pow-pos n in grind arith)

pub fields-lt : (q r m n : ℕ) → q < 2 ^ m → r < 2 ^ n → q * 2 ^ n + r < 2 ^ (m + n)
fields-lt q r m n hq hr = rw (pow-add m n) (grind arith)

-- Shifting left by n within a word of m + n bits keeps the low m bits.
pub shl_mod : (v m n : ℕ) → v * 2 ^ n % 2 ^ (m + n) ≡ v % 2 ^ m * 2 ^ n
shl_mod v m n =
    let parts : v * 2 ^ n ≡ v / 2 ^ m * 2 ^ (m + n) + v % 2 ^ m * 2 ^ n =
      rw (pow-add m n) (omega (arith, ap (λ (t : ℕ). t * 2 ^ n) (div-add-mod' v (2 ^ m)))) in
    rw parts (
      fields_mod (v / 2 ^ m) (v % 2 ^ m * 2 ^ n) (m + n)
        (shifted-lt (v % 2 ^ m) m n (mod-lt v (pow-pos m))))

-- The top bit of a remainder.
pub mod_top : (v n : ℕ) → v % 2 ^ suc n ≡ v / 2 ^ n % 2 * 2 ^ n + v % 2 ^ n
mod_top v n =
    let h = v / 2 ^ n in
    let bit : h % 2 < 2 ^ 1 = omega arith in
    let parts : v ≡ h / 2 * 2 ^ suc n + (h % 2 * 2 ^ n + v % 2 ^ n) = omega (
      arith,
      div-add-mod' v (2 ^ n),
      ap (λ (t : ℕ). t * 2 ^ n) (div-add-mod' h 2),
      ap (λ (t : ℕ). h / 2 * t) (two-pow-suc n),
    ) in
    let fits : h % 2 * 2 ^ n + v % 2 ^ n < 2 ^ (1 + n) =
      fields-lt (h % 2) (v % 2 ^ n) 1 n bit (mod-lt v (pow-pos n)) in
    let e : 1 + n ≡ suc n = omega arith in
    ap (λ (t : ℕ). t % 2 ^ suc n) parts
    ∙ fields_mod (h / 2) (h % 2 * 2 ^ n + v % 2 ^ n) (suc n) (rw e at fits)

pub pow_mono : (m n : ℕ) → m ≤ n → 2 ^ m ≤ 2 ^ n
pow_mono m n h = pow-le-pow_right (omega arith) h

pub pow-lt : (m n : ℕ) → m < n → 2 ^ m < 2 ^ n
pow-lt m n h = omega (arith, pow_mono (suc m) n h, two-pow-suc m, pow-pos m)

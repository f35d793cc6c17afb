-- ===== src/Prelude/Bits.antt =====
-- `|`, `&` and `^` on words as arithmetic, at every width.
mod Digits
pub mod Low
use Digits.{or_digit, and_digit, xor_digit}
use Prim.Native.Nat.{
  ℕ, zero, suc, ◌+◌, ◌-◌, ◌*◌, ◌/◌, ◌%◌, ◌^◌, ◌≤◌, ◌<◌, bit_and, bit_or, bit_xor, differ,
  bit_or-bitwise,
}
use mathlib.Core.Path.{◌≡◌, refl, sym, ap, ◌∙◌}
use native.Mathlib.Nat.{mod-lt, div-add-mod'}
use native.Mathlib.Omega.{arith}
use go_flac.Prelude.Pow.{pow-pos, two-pow-suc, fields_mod}

or-zero_upto : (n a : ℕ) → a ≤ n → bit_or a 0 ≡ a
or-zero_upto n zero h = refl
or-zero_upto zero (suc a) h = absurd (omega arith)
or-zero_upto (suc n) (suc a) h =
    omega (arith, or_digit (suc a) 0, or-zero_upto n (suc a / 2) (omega arith))

and-zero_upto : (n a : ℕ) → a ≤ n → bit_and a 0 ≡ 0
and-zero_upto n zero h = refl
and-zero_upto zero (suc a) h = absurd (omega arith)
and-zero_upto (suc n) (suc a) h =
    omega (arith, and_digit (suc a) 0, and-zero_upto n (suc a / 2) (omega arith))

differ-zero : (x : ℕ) → differ x 0 ≡ x
differ-zero zero = refl
differ-zero (suc x) = refl

differ-one : (x : ℕ) → x < 2 → differ x 1 ≡ 1 - x
differ-one zero h = refl
differ-one (suc zero) h = refl
differ-one (suc (suc x)) h = absurd (omega arith)

xor-zero_upto : (n a : ℕ) → a ≤ n → bit_xor a 0 ≡ a
xor-zero_upto n zero h = refl
xor-zero_upto zero (suc a) h = absurd (omega arith)
xor-zero_upto (suc n) (suc a) h =
    omega (
      arith,
      xor_digit (suc a) 0,
      differ-zero (suc a % 2),
      xor-zero_upto n (suc a / 2) (omega arith),
    )

pub xor-zero : (a : ℕ) → bit_xor a 0 ≡ a
xor-zero a = xor-zero_upto a a (omega arith)

pub zero-or : (a : ℕ) → bit_or 0 a ≡ a
zero-or a = bit_or-bitwise 0 a

double_shift : (q k : ℕ) → q * 2 ^ suc k ≡ 2 * (q * 2 ^ k)
double_shift q k = omega (arith, ap (λ (t : ℕ). q * t) (two-pow-suc k))

-- A value shifted left by `k`, joined by `|` to one that fits `k` bits, is their sum.
pub or_fields : (k q r : ℕ) → r < 2 ^ k → bit_or (q * 2 ^ k) r ≡ q * 2 ^ k + r
or_fields zero q r h =
    let e : r ≡ 0 = omega arith in rw e (omega (arith, or-zero_upto (q * 2 ^ 0) (q * 2 ^ 0)))
or_fields (suc k) q r h =
    let half : q * 2 ^ suc k / 2 ≡ q * 2 ^ k = omega (arith, double_shift q k) in
    let high : bit_or (q * 2 ^ suc k / 2) (r / 2) ≡ q * 2 ^ k + r / 2 =
      rw half (or_fields k q (r / 2) (omega (arith, two-pow-suc k))) in
    omega (arith, or_digit (q * 2 ^ suc k) r, double_shift q k, high)

-- The remainder by a doubled power, from the remainder of the half.
pub mod_double : (a k : ℕ) → a % 2 ^ suc k ≡ a / 2 % 2 ^ k * 2 + a % 2
mod_double a k =
    let parts : a ≡ a / 2 / 2 ^ k * 2 ^ suc k + (a / 2 % 2 ^ k * 2 + a % 2) =
      omega (arith, div-add-mod' (a / 2) (2 ^ k), double_shift (a / 2 / 2 ^ k) k) in
    ap (λ (t : ℕ). t % 2 ^ suc k) parts
    ∙ fields_mod (a / 2 / 2 ^ k) (a / 2 % 2 ^ k * 2 + a % 2) (suc k)
        (omega (arith, mod-lt (a / 2) (pow-pos k), two-pow-suc k))

-- A mask of `k` low bits is the remainder by `2 ^ k`.
pub and_mask : (k a : ℕ) → bit_and a (2 ^ k - 1) ≡ a % 2 ^ k
and_mask zero a = omega (arith, and-zero_upto a a)
and_mask (suc k) a =
    let half : (2 ^ suc k - 1) / 2 ≡ 2 ^ k - 1 = omega (arith, two-pow-suc k, pow-pos k) in
    let high : bit_and (a / 2) ((2 ^ suc k - 1) / 2) ≡ a / 2 % 2 ^ k =
      rw half (and_mask k (a / 2)) in
    omega (arith, and_digit a (2 ^ suc k - 1), two-pow-suc k, pow-pos k, high, mod_double a k)

-- Exclusive or with `k` ones is the complement of a `k`-bit value.
pub xor_ones : (k a : ℕ) → a < 2 ^ k → bit_xor a (2 ^ k - 1) ≡ 2 ^ k - 1 - a
xor_ones zero a h = let e : a ≡ 0 = omega arith in rw e (xor-zero 0)
xor_ones (suc k) a h =
    let half : (2 ^ suc k - 1) / 2 ≡ 2 ^ k - 1 = omega (arith, two-pow-suc k, pow-pos k) in
    let ones : (2 ^ suc k - 1) % 2 ≡ 1 = omega (arith, two-pow-suc k, pow-pos k) in
    let high : bit_xor (a / 2) ((2 ^ suc k - 1) / 2) ≡ 2 ^ k - 1 - a / 2 =
      rw half (xor_ones k (a / 2) (omega (arith, two-pow-suc k))) in
    let low : differ (a % 2) ((2 ^ suc k - 1) % 2) ≡ 1 - a % 2 =
      rw ones (differ-one (a % 2) (omega arith)) in
    omega (arith, xor_digit a (2 ^ suc k - 1), two-pow-suc k, pow-pos k, high, low)

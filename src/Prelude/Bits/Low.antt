-- ===== src/Prelude/Bits/Low.antt =====
-- Low bits of `|`.
use Prim.Native.Nat.{ℕ, zero, suc, ◌/◌, ◌%◌, ◌^◌, bit_or}
use mathlib.Core.Path.{◌≡◌, sym, ap, ◌∙◌}
use native.Mathlib.Omega.{arith}
use go_flac.Prelude.Bits.Digits.{or_digit}
use go_flac.Prelude.Bits.{mod_double}

-- Where the low bits of `a | b` are zero, so are those of `a` and of `b`.
pub or_low : (k a b : ℕ) → bit_or a b % 2 ^ k ≡ 0 → (a % 2 ^ k ≡ 0) × (b % 2 ^ k ≡ 0)
or_low zero a b h = (omega arith, omega arith)
or_low (suc k) a b h =
    let d = or_digit a b in
    let half : bit_or a b / 2 ≡ bit_or (a / 2) (b / 2) = ground arith in
    let split = mod_double (bit_or a b) k in
    let rest : bit_or a b / 2 % 2 ^ k ≡ 0 = omega arith in
    let (low_a, low_b) = or_low k (a / 2) (b / 2) (ap (λ (t : ℕ). t % 2 ^ k) (sym half) ∙ rest) in
    (omega (arith, mod_double a k), omega (arith, mod_double b k))

-- ===== src/Bitio/Register.antt =====
-- The 64-bit registers of internal/bitio: `b` valid bits, the number `p`, stand at the top and
-- zeros below. Laws of `<<`, `>>` and `|` on such a register.
use go_flac.Prelude.{ℕ, ◌+◌, ◌-◌, ◌*◌, ◌/◌, ◌%◌, ◌^◌, ◌≤◌, ◌<◌, ◌≡◌, ap, ◌∙◌, arith, bit_or}
use go_flac.Prelude.Pow.{pow-pos, pow_mono, pow-add, div_pow-add, shl_mod, shifted-lt, fields-lt}
use go_flac.Prelude.Bits.{or_fields}
use go_flac.Prelude.Word.{shl64, shr}
use native.Mathlib.Nat.{mod-eq_of_lt, mod-lt, le_trans, mul-div_cancel, mul_assoc}

-- `acc` holds the `b` bits of `p`.
pub record Holds (acc b p : ℕ) : Type 0 where
  pub aligned : acc ≡ p * 2 ^ (64 - b)
  pub fits : p < 2 ^ b
  pub narrow : b ≤ 64

-- The value of all the bits held.
pub value_of : {acc b p : ℕ} → Holds acc b p → acc / 2 ^ (64 - b) ≡ p
value_of {acc} {b} {p} h =
    ap (λ (t : ℕ). t / 2 ^ (64 - b)) h.aligned ∙ mul-div_cancel p (pow-pos (64 - b))

-- The first `n` bits, right-aligned.
pub top_bits : {acc b p : ℕ} (n : ℕ) → Holds acc b p → n ≤ b → shr acc (64 - n) ≡ p / 2 ^ (b - n)
top_bits {acc} {b} {p} n h le =
    let w = h.narrow in
    let e : 64 - n ≡ b - n + (64 - b) = omega arith in
    ap (λ (k : ℕ). acc / 2 ^ k) e
    ∙ div_pow-add acc (b - n) (64 - b)
    ∙ ap (λ (t : ℕ). t / 2 ^ (b - n)) (value_of h)

-- The register without its first `n` bits.
pub shifted_out :
    {acc b p : ℕ} (n : ℕ) → Holds acc b p → n ≤ b → Holds (shl64 acc n) (b - n) (p % 2 ^ (b - n))
shifted_out {acc} {b} {p} n h le =
    let w = h.narrow in
    let m : ℕ = b - n in
    let e : 64 ≡ m + (64 - m) = omega arith in
    let e' : 64 - m ≡ 64 - b + n = omega arith in
    let moved : acc * 2 ^ n ≡ p * 2 ^ (64 - m) =
      rw (h.aligned, e', pow-add (64 - b) n) (mul_assoc p (2 ^ (64 - b)) (2 ^ n)) in
    record {
      aligned =
          ap (λ (t : ℕ). t % 2 ^ 64) moved
          ∙ ap (λ (k : ℕ). p * 2 ^ (64 - m) % 2 ^ k) e
          ∙ shl_mod p m (64 - m);
      fits = mod-lt p (pow-pos m);
      narrow = omega arith;
    }

-- A field that fits joins the bits held.
pub stage :
    (p v n e : ℕ)
    → v < 2 ^ n
    → n + e ≤ 64
    → bit_or (p * 2 ^ (n + e)) (shl64 v e) ≡ (p * 2 ^ n + v) * 2 ^ e
stage p v n e hv he =
    let fits : v * 2 ^ e < 2 ^ (n + e) = shifted-lt v n e hv in
    let wide : v * 2 ^ e < 2 ^ 64 = le_trans fits (pow_mono (n + e) 64 he) in
    rw (mod-eq_of_lt wide, or_fields (n + e) p (v * 2 ^ e) fits, pow-add n e) (grind arith)

pub staged :
    {acc b p : ℕ} (v n e : ℕ)
    → Holds acc b p
    → v < 2 ^ n
    → b + n + e ≡ 64
    → Holds (bit_or acc (shl64 v e)) (b + n) (p * 2 ^ n + v)
staged {acc} {b} {p} v n e h hv total =
    let free : 64 - b ≡ n + e = omega arith in
    let free' : 64 - (b + n) ≡ e = omega arith in
    record {
      aligned = rw (free', h.aligned, free) (stage p v n e hv (omega arith));
      fits = fields-lt p v b n h.fits hv;
      narrow = omega arith;
    }

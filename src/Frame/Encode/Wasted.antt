-- ===== src/Frame/Encode/Wasted.antt =====
-- The wasted bits of a block.
use go_flac.Prelude.{
  ℕ, zero, suc, ◌/◌, ◌%◌, ◌^◌, ◌≡◌, inl, inr, List, [], ◌∷◌, All, ◌==◌, Bool-cases, arith,
}
use go_flac.Prelude.Bits.{mod_double}
use go_flac.Prelude.Bits.Low.{or_low}
use go_flac.Frame.Subframe.Write.{trailing_zeros, or_all, wasted_bits}

trailing_zeros-divides : (n v : ℕ) → v % 2 ^ trailing_zeros n v ≡ 0
unfolding trailing_zeros
trailing_zeros-divides zero v = omega arith
trailing_zeros-divides (suc n) v = elim (Bool-cases (v % 2 == 1)) [
  | inl odd ↦ rw odd (omega arith)
  | inr even ↦
      let rest = trailing_zeros-divides n (v / 2) in
      let low : v % 2 ≡ 0 = ground arith in
      rw even (omega (arith, mod_double v (trailing_zeros n (v / 2))))
]

all_divisible : (k : ℕ) (s : List ℕ) → or_all s % 2 ^ k ≡ 0 → All (λ x. x % 2 ^ k ≡ 0) s
unfolding or_all
all_divisible k [] h = tt
all_divisible k (x ∷ s) h =
    let (here, rest) = or_low k x (or_all s) h in (here, all_divisible k s rest)

-- Every sample of a block is a multiple of 2 to the number of bits that `wastedBits` (`wastedBits64`)
-- counts.
pub wasted_bits-divides : (w : ℕ) (s : List ℕ) → All (λ x. x % 2 ^ wasted_bits w s ≡ 0) s
unfolding wasted_bits
wasted_bits-divides w s = elim (Bool-cases (or_all s == 0)) [
  | inl e ↦ rw e (all_divisible 0 s (omega arith))
  | inr e ↦
      rw e (all_divisible (trailing_zeros w (or_all s)) s (trailing_zeros-divides w (or_all s)))
]

-- ===== src/Tests/Residuals.antt =====
-- internal/rice at concrete inputs.
use go_flac.Prelude.{ℕ, ◌-◌, ◌^◌, ◌≡◌, refl, inl, inr, List, [], ◌∷◌, true, false, arith}
use go_flac.Bitio.RoundTrip.{RoundTrip}
use go_flac.Bitio.Writer.{new_writer, write_bits}
use go_flac.Rice.{
  Plan, zigzag, write_partition, write_symbols, write_folded, written, write_planned,
  write_planned64, decode_residual,
}
use go_flac.Rice.Partition.{symbols_bits}
use go_flac.Rice.RoundTrip.{AllCarry, decode_residual-write_planned}

-- The residuals 3, -1, 7, -5, 0 of a block of 6 with one warm-up sample, in two partitions.
abbrev residuals : List ℕ
residuals = 3 ∷ (2 ^ 32 - 1) ∷ 7 ∷ (2 ^ 32 - 5) ∷ 0 ∷ []

abbrev plans : List Plan
plans =
    record { escape = false; param = 2; raw_bits = 0; payload = 7 }
    ∷ record { escape = true; param = 0; raw_bits = 4; payload = 17 }
    ∷ []

plans-AllCarry : AllCarry 32 4 2 2 3 plans residuals
unfolding symbols_bits zigzag
plans-AllCarry = (
  omega arith,
  inl (refl, omega arith, ((omega arith, omega arith), ((omega arith, omega arith), tt)), refl),
  (
    omega arith,
    inr (
      refl,
      omega arith,
      (
        (omega arith, inr (omega arith, inl (omega arith))),
        ((omega arith, inr (omega arith, inr (omega arith))), ((omega arith, inl refl), tt)),
      ),
      refl,
    ),
    refl,
  ),
)

decode_residual-write_planned_example :
    RoundTrip
      (written plans 4)
      (write_planned 32 residuals 1 6 plans 4)
      (decode_residual 32 6 1)
      residuals
decode_residual-write_planned_example =
    decode_residual-write_planned 32 4 1 6 1 plans residuals (inl refl) (inl refl) (omega arith)
      refl refl (omega arith) plans-AllCarry

abbrev wide_plans : List Plan
wide_plans = record { escape = false; param = 3; raw_bits = 0; payload = 4 } ∷ []

-- A wide residual, -1, in its folded form: a quotient of 0, the stop bit and a remainder of 1.
nbit-wide : (write_planned64 ((2 ^ 64 - 1) ∷ []) 1 2 wide_plans 4 new_writer).nbit ≡ 14
unfolding write_planned write_partition write_symbols write_folded zigzag write_bits new_writer
nbit-wide = refl

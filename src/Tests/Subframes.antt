-- ===== src/Tests/Subframes.antt =====
-- internal/lpc, the narrow kernels of internal/i32 and the subframes at concrete inputs.
use go_flac.Prelude.{
  ℕ, ◌+◌, ◌-◌, ◌^◌, ◌<◌, ◌≡◌, ◌↔◌, refl, inl, inr, List, [], ◌∷◌, All, true, false, arith,
}
use go_flac.Signed.{sar, Fits}
use go_flac.Bitio.RoundTrip.{RoundTrip}
use go_flac.I32.Unrolled.{lpc_restore_scalar, lpc_restore_scalar_narrow}
use go_flac.I32.Unrolled.Whole.{
  lpc_restore_scalar-lpc_restore, lpc_restore_scalar_narrow-lpc_restore_go_narrow,
}
use go_flac.I32.Lpc.{lpc_restore, lpc_residual_encode}
use go_flac.I32.Narrow.{abs_sum, lpc_restore_narrow_safe, lpc_restore_narrow, lpc_restore_go_narrow}
use go_flac.I32.Narrow.Restore.{lpc_restore_narrow-lpc_residual_encode}
use go_flac.Rice.{zigzag}
use go_flac.Rice.Partition.{symbols_bits}
use go_flac.Lpc.{
  restore_fixed, restore_lpc, residual_with, specialised, compute_fixed_residuals,
  compute_lpc_residuals,
}
use go_flac.Lpc.Inverse.{
  framed, restore_fixed-compute_fixed_residuals, restore_lpc-compute_lpc_residuals,
}
use go_flac.Lpc.Dispatch.{fixed_residuals_diff, lpc_residuals_encode, restore_lpc32}
use go_flac.Lpc.Dispatch.Agree.{
  lpc_residuals_encode-compute_lpc_residuals, fixed_residuals_diff-compute_fixed_residuals,
  restore_lpc32-compute_lpc_residuals,
}
use go_flac.Frame.Subframe.{in_range, decode_subframe}
use go_flac.Frame.Subframe.Range.{in_range_iff}
use go_flac.Frame.Subframe.Write.{fixed, SubframePlan, write_subframe}
use go_flac.Frame.Subframe.RoundTrip.{IsSample}
use go_flac.Frame.Subframe.Plan.{kind_bits, IsPlanOf}
use go_flac.Frame.Subframe.Correct.{decode_subframe-write_subframe}

-- 4, 6, 10, 8: in 8 bits, of which one is wasted.
abbrev pub samples : List ℕ
samples = 4 ∷ 6 ∷ 10 ∷ 8 ∷ []

abbrev pub plan : SubframePlan
plan = record {
  kind = fixed;
  order = 1;
  wasted = 1;
  bits = 36;
  qcoeff = [];
  shift = 0;
  residuals = 1 ∷ 2 ∷ (2 ^ 32 - 1) ∷ [];
  plans = record { escape = false; param = 1; raw_bits = 0; payload = 9 } ∷ [];
  rice_param_bits = 4;
}

pub samples-IsSample : All (IsSample 32 8 1) samples
samples-IsSample = (
  (omega arith, (omega arith, inl (omega arith))),
  (
    (omega arith, (omega arith, inl (omega arith))),
    (
      (omega arith, (omega arith, inl (omega arith))),
      ((omega arith, (omega arith, inl (omega arith))), tt),
    ),
  ),
)

pub plan-IsPlanOf : IsPlanOf fixed 32 samples 15 plan
unfolding compute_fixed_residuals residual_with specialised sar symbols_bits zigzag
plan-IsPlanOf = (
  omega arith,
  omega arith,
  refl,
  record {
    po = 0;
    field = inl refl;
    po_le = omega arith;
    count = refl;
    divides = refl;
    room = omega arith;
    carry = (
      omega arith,
      inl (
        refl,
        omega arith,
        (
          (omega arith, omega arith),
          ((omega arith, omega arith), ((omega arith, omega arith), tt)),
        ),
        refl,
      ),
      refl,
    );
  },
)

decode_subframe-write_subframe_example :
    RoundTrip
      (8 + kind_bits fixed 4 8 15 plan)
      (write_subframe 32 samples 8 plan 15)
      (decode_subframe 32 7 4 8)
      samples
decode_subframe-write_subframe_example =
    decode_subframe-write_subframe 32 7 8 15 samples plan (inl refl) (omega arith) (omega arith)
      (omega arith) (omega arith) samples-IsSample plan-IsPlanOf

-- -1, 5, 2 ^ 63, 0 at 64 bits.
abbrev wide : List ℕ
wide = (2 ^ 64 - 1) ∷ 5 ∷ 2 ^ 63 ∷ 0 ∷ []

restore_fixed-compute_fixed_residuals_example :
    restore_fixed 64 2 (framed 2 wide (compute_fixed_residuals 64 wide 2)) ≡ wide
restore_fixed-compute_fixed_residuals_example =
    restore_fixed-compute_fixed_residuals 64 2 wide (inr refl) (omega arith) (omega arith)
      (omega arith, (omega arith, (omega arith, (omega arith, tt))))

abbrev coeffs : List ℕ
coeffs = 3 ∷ (2 ^ 32 - 1) ∷ []

restore_lpc-compute_lpc_residuals_example :
    restore_lpc 64 coeffs 1 (framed 2 wide (compute_lpc_residuals 64 wide coeffs 1)) ≡ wide
restore_lpc-compute_lpc_residuals_example =
    restore_lpc-compute_lpc_residuals 64 coeffs 1 wide (inr refl) (omega arith)
      (omega arith, (omega arith, (omega arith, (omega arith, tt))))

pub samples-Fits : All (Fits 32 8) samples
samples-Fits = (
  (omega arith, inl (omega arith)),
  (
    (omega arith, inl (omega arith)),
    ((omega arith, inl (omega arith)), ((omega arith, inl (omega arith)), tt)),
  ),
)

pub samples-Words : All (λ x. x < 2 ^ 32) samples
samples-Words = (omega arith, (omega arith, (omega arith, (omega arith, tt))))

narrow_safe : lpc_restore_narrow_safe coeffs 8 1 ≡ true
unfolding lpc_restore_narrow_safe abs_sum
narrow_safe = refl

lpc_restore_narrow-lpc_residual_encode_example :
    lpc_restore_narrow 7 (lpc_residual_encode coeffs 1 samples) coeffs 1 ≡ samples
lpc_restore_narrow-lpc_residual_encode_example =
    lpc_restore_narrow-lpc_residual_encode 7 coeffs 1 8 samples (omega arith) narrow_safe
      (omega arith, (omega arith, tt)) samples-Fits

restore_lpc32-compute_lpc_residuals_example :
    restore_lpc32 12 (framed 2 samples (compute_lpc_residuals 32 samples coeffs 1)) coeffs 1 8
    ≡ samples
restore_lpc32-compute_lpc_residuals_example =
    restore_lpc32-compute_lpc_residuals 12 coeffs 1 8 samples (omega arith) (omega arith)
      (omega arith, (omega arith, tt)) samples-Fits

lpc_residuals_encode-compute_lpc_residuals_example :
    lpc_residuals_encode samples coeffs 1
    ≡ framed 2 samples (compute_lpc_residuals 32 samples coeffs 1)
lpc_residuals_encode-compute_lpc_residuals_example =
    lpc_residuals_encode-compute_lpc_residuals samples coeffs 1 (omega arith)

fixed_residuals_diff-compute_fixed_residuals_example :
    fixed_residuals_diff samples 2 ≡ framed 2 samples (compute_fixed_residuals 32 samples 2)
fixed_residuals_diff-compute_fixed_residuals_example =
    fixed_residuals_diff-compute_fixed_residuals 2 samples (omega arith) (omega arith) (omega arith)
      samples-Words

in_range_iff_example : (in_range 32 samples 5 ≡ true) ↔ All (Fits 32 5) samples
in_range_iff_example =
    in_range_iff 32 5 samples (inl refl) (omega arith) (omega arith) (omega arith) samples-Words

lpc_restore_scalar-lpc_restore_example :
    lpc_restore_scalar samples coeffs 1 ≡ lpc_restore coeffs 1 samples
lpc_restore_scalar-lpc_restore_example =
    lpc_restore_scalar-lpc_restore samples coeffs 1 (omega arith)

lpc_restore_scalar_narrow-lpc_restore_go_narrow_example :
    lpc_restore_scalar_narrow samples coeffs 1 ≡ lpc_restore_go_narrow samples coeffs 1
lpc_restore_scalar_narrow-lpc_restore_go_narrow_example =
    lpc_restore_scalar_narrow-lpc_restore_go_narrow samples coeffs 1 (omega arith) (omega arith)

-- ===== src/Tests/Samples.antt =====
-- internal/i32 at concrete inputs.
use go_flac.Prelude.{ℕ, ◌-◌, ◌^◌, ◌≡◌, refl, inl, inr, List, [], ◌∷◌, arith}
use go_flac.I32.{
  sub, mid_side_encode, fixed_coeffs1, fixed_coeffs2, fixed_coeffs3, fixed_coeffs4, dot, diff_loop,
  diff, restore,
}
use go_flac.I32.Fixed.{restore-diff}
use go_flac.I32.Lpc.{lpc_residual_encode, lpc_restore, lpc_restore-lpc_residual_encode}
use go_flac.Frame.Decorrelate.{
  decorrelate_left_side, decorrelate_right_side, decorrelate_mid_side, decorrelate_side-sub,
  decorrelate_mid_side-mid_side_encode,
}

-- 5, -3, 2 ^ 31 - 1, -2 ^ 31, 0, 7: the differences wrap around.
abbrev samples : List ℕ
samples = 5 ∷ (2 ^ 32 - 3) ∷ (2 ^ 31 - 1) ∷ (2 ^ 31) ∷ 0 ∷ 7 ∷ []

diff-samples : diff fixed_coeffs2 (1 ∷ 4 ∷ 9 ∷ 16 ∷ 25 ∷ []) ≡ 1 ∷ 4 ∷ 2 ∷ 2 ∷ 2 ∷ []
unfolding diff diff_loop dot
diff-samples = refl

restore-diff_example :
    (restore fixed_coeffs1 (diff fixed_coeffs1 samples) ≡ samples)
    × (restore fixed_coeffs2 (diff fixed_coeffs2 samples) ≡ samples)
    × (restore fixed_coeffs3 (diff fixed_coeffs3 samples) ≡ samples)
    × (restore fixed_coeffs4 (diff fixed_coeffs4 samples) ≡ samples)
restore-diff_example =
    restore-diff samples
      (omega arith, (omega arith, (omega arith, (omega arith, (omega arith, (omega arith, tt))))))

decorrelate_side-sub_example :
    (decorrelate_left_side (9 ∷ 2 ∷ []) (sub (9 ∷ 2 ∷ []) (4 ∷ 6 ∷ [])) ≡ (9 ∷ 2 ∷ [], 4 ∷ 6 ∷ []))
    × (decorrelate_right_side (sub (9 ∷ 2 ∷ []) (4 ∷ 6 ∷ [])) (4 ∷ 6 ∷ [])
        ≡ (9 ∷ 2 ∷ [], 4 ∷ 6 ∷ []))
decorrelate_side-sub_example =
    decorrelate_side-sub (9 ∷ 2 ∷ []) (4 ∷ 6 ∷ []) refl (omega arith, (omega arith, tt))
      (omega arith, (omega arith, tt))

-- The second left sample is -2.
decorrelate_mid_side-mid_side_encode_example :
    decorrelate_mid_side
      (mid_side_encode (9 ∷ (2 ^ 32 - 2) ∷ []) (4 ∷ 6 ∷ [])).0
      (mid_side_encode (9 ∷ (2 ^ 32 - 2) ∷ []) (4 ∷ 6 ∷ [])).1
    ≡ (9 ∷ (2 ^ 32 - 2) ∷ [], 4 ∷ 6 ∷ [])
decorrelate_mid_side-mid_side_encode_example =
    decorrelate_mid_side-mid_side_encode (9 ∷ (2 ^ 32 - 2) ∷ []) (4 ∷ 6 ∷ []) refl
      (inl (omega arith), (inr (omega arith, omega arith), tt))
      (inl (omega arith), (inl (omega arith), tt))

-- Two coefficients, 3 and -1, and a shift of 1.
lpc_restore-lpc_residual_encode_example :
    lpc_restore (3 ∷ (2 ^ 32 - 1) ∷ []) 1 (lpc_residual_encode (3 ∷ (2 ^ 32 - 1) ∷ []) 1 samples)
    ≡ samples
lpc_restore-lpc_residual_encode_example =
    lpc_restore-lpc_residual_encode (3 ∷ (2 ^ 32 - 1) ∷ []) 1 samples
      (omega arith, (omega arith, (omega arith, (omega arith, (omega arith, (omega arith, tt))))))

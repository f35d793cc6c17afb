-- ===== src/Frame/Subframe/Write.antt =====
-- internal/frame/subframe_encode.go: writing a subframe by its plan, for samples of `w` bits. The
-- functions of the wide path are the same at 64. The workspace slot of a plan is its fields
-- `residuals` and `plans`, and `qcoeff` holds the valid coefficients, `order` of them.
use go_flac.Prelude.{
  ℕ, zero, suc, ◌+◌, ◌-◌, ◌/◌, ◌%◌, ◌^◌, List, [], ◌∷◌, Bool, true, false, ◌==◌, ltb, ◌||◌,
  if◌then◌else◌, take, length, get_or, bit_or,
}
use go_flac.Signed.{sar}
use go_flac.Bitio.Writer.{Writer, write_bits, write_signed_bits, write_unary}
use go_flac.Rice.{Plan, widen, write_planned, write_raws}

unfoldable pub write_subframe_header : ℕ → ℕ → Writer → Writer
write_subframe_header type_code wasted =
    if wasted == 0 then (λ b. write_bits 0 1 (write_bits type_code 6 (write_bits 0 1 b))) else (λ b.
      write_unary (wasted - 1) (write_bits 1 1 (write_bits type_code 6 (write_bits 0 1 b))))

abbrev pub write_sample : ℕ → ℕ → ℕ → ℕ → Writer → Writer
write_sample w wasted eff v = write_signed_bits (widen w (sar w v wasted)) eff

unfoldable pub write_samples : ℕ → ℕ → ℕ → List ℕ → Writer → Writer
unfolding sar
write_samples w wasted eff [] = λ b. b
write_samples w wasted eff (v ∷ s) =
    λ b. write_samples w wasted eff s (write_sample w wasted eff v b)

unfoldable pub write_constant : ℕ → ℕ → ℕ → ℕ → Writer → Writer
unfolding write_subframe_header sar
write_constant w value wasted bps =
    λ b. write_sample w wasted (bps - wasted) value (write_subframe_header 0 wasted b)

unfoldable pub write_verbatim : ℕ → List ℕ → ℕ → ℕ → Writer → Writer
unfolding write_subframe_header write_samples
write_verbatim w s wasted bps =
    λ b. write_samples w wasted (bps - wasted) s (write_subframe_header 1 wasted b)

pub data Kind : Type 0 where
  constant verbatim fixed lpc : Kind

pub record SubframePlan : Type 0 where
  pub kind : Kind
  pub order : ℕ
  pub wasted : ℕ
  pub bits : ℕ
  pub qcoeff : List ℕ
  pub shift : ℕ
  pub residuals : List ℕ
  pub plans : List Plan
  pub rice_param_bits : ℕ

-- The residual of a plan.
abbrev pub write_residual : ℕ → List ℕ → SubframePlan → Writer → Writer
unfolding write_planned
write_residual w s plan =
    write_planned w (take (length s - plan.order) plan.residuals) plan.order (length s) plan.plans
      plan.rice_param_bits

unfoldable pub write_lpc : ℕ → List ℕ → ℕ → SubframePlan → ℕ → Writer → Writer
unfolding write_subframe_header write_samples write_raws write_planned
write_lpc w s bps plan precision = λ b. write_residual w s plan (
    write_raws 32 precision plan.qcoeff (
      write_signed_bits plan.shift 5 (
        write_bits (precision - 1) 4 (
          write_samples w plan.wasted (bps - plan.wasted) (take plan.order s)
            (write_subframe_header (31 + plan.order) plan.wasted b)))))

unfoldable pub write_fixed : ℕ → List ℕ → ℕ → SubframePlan → Writer → Writer
unfolding write_subframe_header write_samples write_planned
write_fixed w s bps plan = λ b. write_residual w s plan (
    write_samples w plan.wasted (bps - plan.wasted) (take plan.order s)
      (write_subframe_header (8 + plan.order) plan.wasted b))

-- `writeSubframe` and `writeSubframe64`; `precision` is `p.LPCPrecision`. An empty block, of which
-- the constant subframe has no sample to take, panics in the source.
abbrev pub write_by_kind : Kind → ℕ → List ℕ → ℕ → SubframePlan → ℕ → Writer → Writer
write_by_kind constant w s bps plan precision = write_constant w (get_or s 0 0) 0 bps
write_by_kind verbatim w s bps plan precision = write_verbatim w s plan.wasted bps
write_by_kind lpc w s bps plan precision = write_lpc w s bps plan precision
write_by_kind fixed w s bps plan precision = write_fixed w s bps plan

unfoldable pub write_subframe : ℕ → List ℕ → ℕ → SubframePlan → ℕ → Writer → Writer
write_subframe w s bps plan precision = write_by_kind plan.kind w s bps plan precision

-- `wastedBits` and `wastedBits64`: the zero bits below the lowest one of `v`, of `n` bits at most.
unfoldable pub trailing_zeros : ℕ → ℕ → ℕ
trailing_zeros zero v = 0
trailing_zeros (suc n) v = let rest = trailing_zeros n (v / 2) in if v % 2 == 1 then 0 else suc rest

unfoldable pub or_all : List ℕ → ℕ
or_all [] = 0
or_all (v ∷ s) = bit_or v (or_all s)

unfoldable pub wasted_bits : ℕ → List ℕ → ℕ
unfolding or_all trailing_zeros
wasted_bits w s = let v = or_all s in if v == 0 then 0 else trailing_zeros w v

-- `allEqual` and `allEqual64`.
abbrev pub all_same : ℕ → List ℕ → Bool
all_same a [] = true
all_same a (x ∷ s) = if x == a then all_same a s else false

unfoldable pub all_equal : List ℕ → Bool
all_equal [] = true
all_equal (x ∷ s) = all_same x s

-- `residualsInRange`, on `int64`.
abbrev pub legal_residual : ℕ → Bool
legal_residual r = ltb r (2 ^ 31) || ltb (2 ^ 64 - 2 ^ 31) r

unfoldable pub residuals_in_range : List ℕ → Bool
residuals_in_range [] = true
residuals_in_range (r ∷ res) = if legal_residual r then residuals_in_range res else false

-- The functions of the wide path.
abbrev pub write_constant64 : ℕ → ℕ → ℕ → Writer → Writer
unfolding write_constant
write_constant64 value wasted bps = write_constant 64 value wasted bps

abbrev pub write_verbatim64 : List ℕ → ℕ → ℕ → Writer → Writer
unfolding write_verbatim
write_verbatim64 s wasted bps = write_verbatim 64 s wasted bps

abbrev pub write_lpc64 : List ℕ → ℕ → SubframePlan → ℕ → Writer → Writer
unfolding write_lpc
write_lpc64 s bps plan precision = write_lpc 64 s bps plan precision

abbrev pub write_fixed64 : List ℕ → ℕ → SubframePlan → Writer → Writer
unfolding write_fixed
write_fixed64 s bps plan = write_fixed 64 s bps plan

abbrev pub write_subframe64 : List ℕ → ℕ → SubframePlan → ℕ → Writer → Writer
unfolding write_subframe
write_subframe64 s bps plan precision = write_subframe 64 s bps plan precision

abbrev pub wasted_bits64 : List ℕ → ℕ
unfolding wasted_bits
wasted_bits64 s = wasted_bits 64 s

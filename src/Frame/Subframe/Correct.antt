-- ===== src/Frame/Subframe/Correct.antt =====
-- `decodeSubframe` against `writeSubframe`, and `decodeSubframe64` against `writeSubframe64`.
use go_flac.Prelude.{
  ℕ, ◌+◌, ◌-◌, ◌-◌, ◌*◌, ◌^◌, ◌≤◌, ◌<◌, ◌≡◌, refl, sym, ap, ◌∙◌, List, [], ◌∷◌, All, map-All, take,
  length, get_or, take_all, arith,
}
use go_flac.Signed.{sar, Fits}
use go_flac.Bitio.Writer.{Writer, write_signed_bits, write_bits}
use go_flac.Bitio.RoundTrip.{RoundTrip, RoundTrip-width}
use go_flac.Rice.{written, write_planned, write_raws, widen}
use go_flac.Rice.Fold.{IsWidth}
use go_flac.Lpc.{compute_fixed_residuals, compute_lpc_residuals}
use go_flac.Frame.Subframe.{decode_kind, shift_back, decode_subframe}
use go_flac.Frame.Subframe.Write.{
  write_subframe_header, write_samples, Kind, constant, verbatim, fixed, lpc, SubframePlan,
  write_constant, write_verbatim, write_lpc, write_fixed, write_by_kind, write_subframe,
}
use go_flac.Frame.Subframe.Routes.{decode_kind-fixed, decode_kind-lpc}
use go_flac.Frame.Subframe.RoundTrip.{
  sar-zero, stored, IsSample, stored-Fits, shift_back-stored, write_samples-write_raws,
  RoundTrip-write_subframe_header,
}
use go_flac.Frame.Subframe.Kinds.{
  IsCoded, RoundTrip-fixed, RoundTrip-lpc, RoundTrip-verbatim, RoundTrip-constant,
}
use go_flac.Frame.Subframe.Plan.{
  kind_bits, IsPlanOf, length-compute_fixed_residuals, length-compute_lpc_residuals, length-stored,
  take-stored,
}

constant_fields :
    (w v bps : ℕ)
    → v < 2 ^ w
    → write_constant w v 0 bps
      ≡ (λ b. write_signed_bits (widen w v) bps (write_subframe_header 0 0 b))
unfolding write_constant
constant_fields w v bps lt =
    let e : bps - 0 ≡ bps = omega arith in
    ap
      (λ (n : ℕ).
        λ (b : Writer). write_signed_bits (widen w (sar w v 0)) n (write_subframe_header 0 0 b))
      e
    ∙ ap
        (λ (x : ℕ). λ (b : Writer). write_signed_bits (widen w x) bps (write_subframe_header 0 0 b))
        (sar-zero w v lt)

shift_back-zero : (w : ℕ) (s : List ℕ) → shift_back w 0 s ≡ s
unfolding shift_back
shift_back-zero w s = refl

module _ (w ceiling bps precision : ℕ) (s : List ℕ) (plan : SubframePlan) (wide : IsWidth w)
    (le : bps ≤ w) (short : bps ≤ 33) (lt : plan.wasted < bps)
    (h : All (IsSample w bps plan.wasted) s) where
  abbrev t : List ℕ
  t = stored w plan.wasted s

  abbrev eff : ℕ
  eff = bps - plan.wasted

  fits : All (Fits w eff) t
  fits = stored-Fits w bps plan.wasted s lt le h

  -- The header around the kind, and the wasted bits shifted back in.
  framed_by :
      {e : Writer → Writer} (code n : ℕ)
      → code < 64
      → RoundTrip n e (decode_kind w ceiling (length s) code eff) t
      → RoundTrip
          (8 + plan.wasted + n)
          (λ b. e (write_subframe_header code plan.wasted b))
          (decode_subframe w ceiling (length s) bps)
          s
  framed_by code n small p = rw (shift_back-stored w bps plan.wasted s lt le h) at (
      RoundTrip-write_subframe_header w ceiling (length s) bps code plan.wasted n t small
        (omega arith) lt p)

  len : length t ≡ length s
  len = length-stored w plan.wasted s

  verbatim_fields :
      write_verbatim w s plan.wasted bps
      ≡ (λ b. write_raws w eff t (write_subframe_header 1 plan.wasted b))
  unfolding write_verbatim
  verbatim_fields =
      ap (λ (e : Writer → Writer). λ (b : Writer). e (write_subframe_header 1 plan.wasted b))
        (write_samples-write_raws w plan.wasted eff s)

  verbatim_back :
      RoundTrip
        (8 + kind_bits verbatim (length s) bps precision plan)
        (write_verbatim w s plan.wasted bps)
        (decode_subframe w ceiling (length s) bps)
        s
  verbatim_back =
      let p =
        RoundTrip-verbatim w ceiling eff t wide (omega arith) (omega arith) (omega arith) fits in
      rw verbatim_fields
        (RoundTrip-width (omega arith) (framed_by 1 (length s * eff) (omega arith) (rw len at p)))

  constant_back :
      IsPlanOf constant w s precision plan
      → 1 ≤ length s
      → RoundTrip
          (8 + kind_bits constant (length s) bps precision plan)
          (write_constant w (get_or s 0 0) 0 bps)
          (decode_subframe w ceiling (length s) bps)
          s
  constant_back same some_sample =
      let all : All (Fits w bps) s = map-All (λ x (f : IsSample w bps plan.wasted x). f.1) s h in
      let first : Fits w bps (get_or s 0 0) = first-All s all some_sample in
      let p =
        RoundTrip-constant w ceiling bps s wide (omega arith) le (omega arith) all (get_or s 0 0)
          first same in
      rw (constant_fields w (get_or s 0 0) bps first.0) (
        RoundTrip-width (omega arith) (
          rw (shift_back-zero w s) at (
            RoundTrip-write_subframe_header
              {e = λ b. write_signed_bits (widen w (get_or s 0 0)) bps b} w ceiling (length s) bps 0
              0 bps s (omega arith) (omega arith) (omega arith) (rw (whole bps) p))))
    where
      whole : (n : ℕ) → n - 0 ≡ n
      whole n = omega arith

      first-All : (s : List ℕ) → All (Fits w bps) s → 1 ≤ length s → Fits w bps (get_or s 0 0)
      first-All [] all pos = absurd (omega arith)
      first-All (x ∷ s) (hx, all) pos = hx

  -- The samples of a warm-up, and what follows them.
  warmup_fields :
      (tail : Writer → Writer) (code : ℕ)
      → ◌≡◌ {A = Writer → Writer}
          (λ b. tail (
            write_samples w plan.wasted eff
              (take plan.order s)
              (write_subframe_header code plan.wasted b)))
          (λ b.
            tail (write_raws w eff (take plan.order t) (write_subframe_header code plan.wasted b)))
  warmup_fields tail code =
      ap
        (λ (e : Writer → Writer).
          λ (b : Writer). tail (e (write_subframe_header code plan.wasted b)))
        (write_samples-write_raws w plan.wasted eff (take plan.order s)
          ∙ ap (λ (l : List ℕ). write_raws w eff l) (take-stored w plan.wasted plan.order s))

  fixed_fields :
      (res : List ℕ)
      → take (length s - plan.order) plan.residuals ≡ res
      → write_fixed w s bps plan ≡ (λ b.
        write_planned w res plan.order (length s) plan.plans plan.rice_param_bits (
          write_raws w eff
            (take plan.order t)
            (write_subframe_header (8 + plan.order) plan.wasted b)))
  unfolding write_fixed
  fixed_fields res same =
      ap
        (λ (r : List ℕ). λ (b : Writer).
          write_planned w r plan.order (length s) plan.plans plan.rice_param_bits (
            write_samples w plan.wasted eff (take plan.order s)
              (write_subframe_header (8 + plan.order) plan.wasted b)))
        same
      ∙ warmup_fields (write_planned w res plan.order (length s) plan.plans plan.rice_param_bits)
          (8 + plan.order)

  fixed_back :
      IsPlanOf fixed w s precision plan
      → RoundTrip
          (8 + kind_bits fixed (length s) bps precision plan)
          (write_fixed w s bps plan)
          (decode_subframe w ceiling (length s) bps)
          s
  fixed_back (four, long, same, coded) =
      let n : ℕ = length t - plan.order in
      let res : List ℕ = compute_fixed_residuals w t plan.order in
      let all : take (length s - plan.order) plan.residuals ≡ res = rw same (
        take_all (length s - plan.order) res
          (omega (arith, len, length-compute_fixed_residuals w t plan.order))) in
      let coded' : IsCoded w (length t) plan.order plan.rice_param_bits plan.plans res =
        rw (len, sym same) coded in
      let p =
        RoundTrip-fixed w ceiling eff t wide (omega arith) (omega arith) (omega arith) fits
          plan.order plan.rice_param_bits plan.plans four (omega (arith, len)) coded' in
      let code = decode_kind-fixed w ceiling (length s) plan.order eff four in
      let tail : Writer → Writer =
        write_planned w res plan.order (length s) plan.plans plan.rice_param_bits in
      rw (fixed_fields res all) (
        RoundTrip-width (omega arith) (
          framed_by {e = λ b. tail (write_raws w eff (take plan.order t) b)} (8 + plan.order)
            (plan.order * eff + written plan.plans plan.rice_param_bits) (omega arith)
            (rw code (rw len at p))))

  -- What `writeLPC` writes behind the warm-up.
  abbrev lpc_tail : List ℕ → Writer → Writer
  lpc_tail res b = write_planned w res plan.order (length s) plan.plans plan.rice_param_bits (
      write_raws 32 precision plan.qcoeff
        (write_signed_bits plan.shift 5 (write_bits (precision - 1) 4 b)))

  lpc_fields :
      (res : List ℕ)
      → take (length s - plan.order) plan.residuals ≡ res
      → write_lpc w s bps plan precision ≡ (λ b. lpc_tail res (
          write_raws w eff
            (take plan.order t)
            (write_subframe_header (31 + plan.order) plan.wasted b)))
  unfolding write_lpc
  lpc_fields res same =
      ap
        (λ (r : List ℕ). λ (b : Writer). lpc_tail r (
          write_samples w plan.wasted eff (take plan.order s)
            (write_subframe_header (31 + plan.order) plan.wasted b)))
        same
      ∙ warmup_fields (lpc_tail res) (31 + plan.order)

  lpc_back :
      IsPlanOf lpc w s precision plan
      → RoundTrip
          (8 + kind_bits lpc (length s) bps precision plan)
          (write_lpc w s bps plan precision)
          (decode_subframe w ceiling (length s) bps)
          s
  lpc_back (order, one, most, long, small, some_bits, le15, hc, same, coded) =
      let res : List ℕ = compute_lpc_residuals w t plan.qcoeff plan.shift in
      let all : take (length s - plan.order) plan.residuals ≡ res = rw same (
        take_all (length s - plan.order) res
          (omega (arith, len, order, length-compute_lpc_residuals w t plan.qcoeff plan.shift))) in
      let coded' : IsCoded w (length t) (length plan.qcoeff) plan.rice_param_bits plan.plans res =
        rw (len, sym same, sym order) coded in
      let p =
        RoundTrip-lpc w ceiling eff t wide (omega arith) (omega arith) (omega arith) fits
          plan.qcoeff plan.shift precision plan.rice_param_bits plan.plans (omega arith)
          (omega (arith, len)) small some_bits le15 hc coded' in
      let code = decode_kind-lpc w ceiling (length s) plan.order eff one in
      rw (lpc_fields res all) (
        RoundTrip-width (omega arith) (
          framed_by {e = λ b. lpc_tail res (write_raws w eff (take plan.order t) b)}
            (31 + plan.order)
            (plan.order * eff
              + (4 + (5 + (plan.order * precision + written plan.plans plan.rice_param_bits))))
            (omega arith) (rw code (rw (len, sym order) at p))))

-- What `writeSubframe` (`writeSubframe64`) writes is read back as the samples, in exactly the bits that
-- the planner counts, by `decodeSubframe` (`decodeSubframe64`) on any architecture: for a block that is
-- not empty, of samples that have the wasted bits of the plan as zeros and that `bps` bits hold, at
-- most 33 of them and no more than the sample type has, some of which are not wasted; and a plan that
-- is constant, if the samples are all equal, or verbatim, or fixed of an order to 4 or LPC of an order
-- from 1 to 32, no longer than the block, with the residuals that the predictor leaves and Rice plans
-- that carry them; an LPC shift is below 16 and the precision, from 1 to 15, holds the coefficients.
pub decode_subframe-write_subframe :
    (w ceiling bps precision : ℕ) (s : List ℕ) (plan : SubframePlan)
    → IsWidth w
    → bps ≤ w
    → bps ≤ 33
    → plan.wasted < bps
    → 1 ≤ length s
    → All (IsSample w bps plan.wasted) s
    → IsPlanOf plan.kind w s precision plan
    → RoundTrip
        (8 + kind_bits plan.kind (length s) bps precision plan)
        (write_subframe w s bps plan precision)
        (decode_subframe w ceiling (length s) bps)
        s
unfolding write_subframe
decode_subframe-write_subframe w ceiling bps precision s plan wide le short lt pos h planned =
    by_kind plan.kind planned
  where
    by_kind :
        (kind : Kind)
        → IsPlanOf kind w s precision plan
        → RoundTrip
            (8 + kind_bits kind (length s) bps precision plan)
            (write_by_kind kind w s bps plan precision)
            (decode_subframe w ceiling (length s) bps)
            s
    by_kind constant p = constant_back w ceiling bps precision s plan wide le short lt h p pos
    by_kind verbatim p = verbatim_back w ceiling bps precision s plan wide le short lt h
    by_kind fixed p = fixed_back w ceiling bps precision s plan wide le short lt h p
    by_kind lpc p = lpc_back w ceiling bps precision s plan wide le short lt h p

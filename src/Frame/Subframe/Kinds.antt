-- ===== src/Frame/Subframe/Kinds.antt =====
-- Each kind of subframe, read back as it was written.
use go_flac.Prelude.{
  ℕ, zero, suc, ◌+◌, ◌-◌, ◌*◌, ◌/◌, ◌%◌, ◌^◌, ◌≤◌, ◌<◌, ◌≡◌, refl, sym, ◌∙◌, inl, inr, List, All,
  map-All, take, drop, length, drop-All, take-All, length-take, replicate, true, false, ltb, leb,
  ◌==◌, arith, ge→ltb,
}
use go_flac.Signed.{Fits}
use go_flac.Bitio.Writer.{Writer, write_bits, write_signed_bits}
use go_flac.Bitio.Reader.{◌>>=◌, pure}
use go_flac.Bitio.Reader.Read.{read_signed}
use go_flac.Bitio.RoundTrip.{
  RoundTrip, RoundTrip-write_bits, RoundTrip-then, RoundTrip-end, RoundTrip-done, RoundTrip-width,
}
use go_flac.Rice.{Plan, write_raws, read_raws, widen, written, write_planned}
use go_flac.Rice.Fold.{IsWidth}
use go_flac.Rice.Raw.{RoundTrip-write_raw}
use go_flac.Rice.Partition.{IsParamBits, raws_RoundTrip}
use go_flac.Rice.RoundTrip.{AllCarry, decode_residual-write_planned}
use go_flac.Lpc.{compute_fixed_residuals, compute_lpc_residuals}
use go_flac.Lpc.Inverse.{
  IsWord, framed, restore_fixed-compute_fixed_residuals, restore_lpc-compute_lpc_residuals,
}
use go_flac.Lpc.Dispatch.Agree.{
  restore_fixed32-compute_fixed_residuals, restore_lpc32-compute_lpc_residuals,
}
use go_flac.Frame.Subframe.{
  decode_subframe_residual, decode_warmup, in_range, restore_fixed_by, restore_lpc_by,
  read_lpc_rest, decode_lpc, checked, decode_fixed, decode_constant, decode_kind,
}
use go_flac.Frame.Subframe.Routes.{fixed_route, lpc_route, kind_route}
use go_flac.Frame.Subframe.Range.{in_range_iff}
use go_flac.Frame.Subframe.RoundTrip.{Fits-FitsRaw, RoundTrip-deferred}

-- The residuals `res` of a block of `len` samples, and Rice plans that can carry them.
pub record IsCoded (w len order param_bits : ℕ) (plans : List Plan) (res : List ℕ) : Type 0 where
  pub po : ℕ
  pub field : IsParamBits param_bits
  pub po_le : po ≤ 15
  pub count : length plans ≡ 2 ^ po
  pub divides : len % 2 ^ po ≡ 0
  pub room : order ≤ len / 2 ^ po
  pub carry : AllCarry w param_bits (2 ^ po) (len / 2 ^ po - order) (len / 2 ^ po) plans res

widen-id : (x : ℕ) → x < 2 ^ 63 → widen 64 x ≡ x
unfolding widen
widen-id x lt = ground arith

-- The shift of the coefficients is written as a signed number.
shift_RoundTrip :
    (shift : ℕ) → shift < 16 → RoundTrip 5 (write_signed_bits shift 5) (read_signed 5) shift
shift_RoundTrip shift lt =
    let same = widen-id shift (omega arith) in
    rw same at
      (RoundTrip-write_raw 64 5 shift (inr refl) (omega arith) (omega arith)
        (omega arith, inr (omega arith, inl (omega arith)))).0

residuals-zero : (w : ℕ) (t : List ℕ) → framed 0 t (compute_fixed_residuals w t 0) ≡ t
unfolding compute_fixed_residuals
residuals-zero w t = refl

module _ (w ceiling eff : ℕ) (t : List ℕ) (wide : IsWidth w) (pos : 1 ≤ eff) (le : eff ≤ w)
    (short : eff ≤ 57) (fits : All (Fits w eff) t) where
  words : All (IsWord w) t
  words = map-All (λ x (f : Fits w eff x). f.0) t fits

  -- The stored samples in the raw form.
  raw_samples :
      (s : List ℕ)
      → All (Fits w eff) s
      → RoundTrip (length s * eff) (write_raws w eff s) (read_raws w eff (length s)) s
  raw_samples s h =
      raws_RoundTrip w eff s wide le short (map-All (λ x f. Fits-FitsRaw w eff x pos f) s h)

  warmup_RoundTrip :
      (order : ℕ)
      → order ≤ length t
      → RoundTrip
          (order * eff)
          (write_raws w eff (take order t))
          (decode_warmup w (length t) order eff)
          (take order t)
  unfolding decode_warmup
  warmup_RoundTrip order long =
      let room : ltb (length t) order ≡ false = ge→ltb (length t) order long in
      let p = raw_samples (take order t) (take-All (Fits w eff) order t fits) in
      rw room (rw (length-take order t long) at p)

  checked_back : (order : ℕ) → checked w order eff t ≡ pure t
  unfolding checked
  checked_back order =
      let inside = drop-All (Fits w eff) order t fits in
      let all_in : in_range w (drop order t) eff ≡ true =
        (in_range_iff w eff (drop order t) wide pos le (omega arith)
            (drop-All (IsWord w) order t words)).1
          inside in
      rw all_in refl

  restored_fixed :
      (order : ℕ)
      → order ≤ 4
      → order ≤ length t
      → restore_fixed_by w (framed order t (compute_fixed_residuals w t order)) order ≡ t
  restored_fixed zero four long = fixed_route w _ 0 ∙ residuals-zero w t
  restored_fixed (suc k) four long =
      let nonzero : (suc k == 0) ≡ false = ground arith in
      fixed_route w _ (suc k) ∙ elim wide [
        | inl e ↦
            let words32 : All (IsWord 32) t = rw e at words in
            let here : (w == 32) ≡ true = ground arith in
            rw (nonzero, here, e)
              (restore_fixed32-compute_fixed_residuals (suc k) t (omega arith) four long words32)
        | inr e ↦
            let elsewhere : (w == 32) ≡ false = ground arith in
            rw (nonzero, elsewhere)
              (restore_fixed-compute_fixed_residuals w (suc k) t (inr e) four long words)
      ]

  restored_lpc :
      (coeffs : List ℕ) (shift : ℕ)
      → 1 ≤ length coeffs
      → length coeffs ≤ length t
      → shift ≤ 63
      → All (IsWord 32) coeffs
      → restore_lpc_by w ceiling
          (framed (length coeffs) t (compute_lpc_residuals w t coeffs shift))
          coeffs
          shift
          eff
        ≡ t
  restored_lpc coeffs shift one long small hc = lpc_route w ceiling _ coeffs shift eff ∙ elim wide [
    | inl e ↦
        let fits32 : All (Fits 32 eff) t = rw e at fits in
        let here : (w == 32) ≡ true = ground arith in
        rw (here, e)
          (restore_lpc32-compute_lpc_residuals ceiling coeffs shift eff t one small hc fits32)
    | inr e ↦
        let elsewhere : (w == 32) ≡ false = ground arith in
        rw elsewhere (restore_lpc-compute_lpc_residuals w coeffs shift t (inr e) long words)
  ]

  residual_RoundTrip :
      (order param_bits : ℕ) (plans : List Plan) (res : List ℕ)
      → IsCoded w (length t) order param_bits plans res
      → RoundTrip
          (written plans param_bits)
          (write_planned w res order (length t) plans param_bits)
          (decode_subframe_residual w (length t) order)
          res
  residual_RoundTrip order param_bits plans res c = RoundTrip-deferred w (length t) order _ res (
      decode_residual-write_planned w param_bits c.po (length t) order plans res wide c.field
        c.po_le c.count c.divides c.room c.carry)

  pub RoundTrip-fixed :
      (order param_bits : ℕ) (plans : List Plan)
      → order ≤ 4
      → order ≤ length t
      → IsCoded w (length t) order param_bits plans (compute_fixed_residuals w t order)
      → RoundTrip
          (order * eff + written plans param_bits)
          (λ b.
            write_planned w
              (compute_fixed_residuals w t order)
              order
              (length t)
              plans
              param_bits
              (write_raws w eff (take order t) b))
          (decode_fixed w (length t) order eff)
          t
  unfolding decode_fixed
  RoundTrip-fixed order param_bits plans four long c =
      let res : List ℕ = compute_fixed_residuals w t order in
      let back = restored_fixed order four long in
      RoundTrip-then {e' = write_planned w res order (length t) plans param_bits} _
        (warmup_RoundTrip order long)
        (RoundTrip-width (omega arith) (
          RoundTrip-then {n = 0} {e' = λ b. b} _ (residual_RoundTrip order param_bits plans res c)
            (rw (back, checked_back order) (RoundTrip-end t))))

  -- The precision, the shift and the coefficients.
  lpc_rest_RoundTrip :
      (coeffs : List ℕ) (shift precision param_bits : ℕ) (plans : List Plan)
      → 1 ≤ length coeffs
      → length coeffs ≤ length t
      → shift < 16
      → 1 ≤ precision
      → precision ≤ 15
      → All (Fits 32 precision) coeffs
      → IsCoded w
          (length t)
          (length coeffs)
          param_bits
          plans
          (compute_lpc_residuals w t coeffs shift)
      → RoundTrip
          (4 + (5 + (length coeffs * precision + written plans param_bits)))
          (λ b.
            write_planned w
              (compute_lpc_residuals w t coeffs shift)
              (length coeffs)
              (length t)
              plans
              param_bits
              (write_raws 32 precision coeffs
                (write_signed_bits shift 5 (write_bits (precision - 1) 4 b))))
          (read_lpc_rest w ceiling (length t) (length coeffs) eff (take (length coeffs) t))
          t
  unfolding read_lpc_rest
  lpc_rest_RoundTrip coeffs shift precision param_bits plans one long small some_bits le15 hc c =
      let order : ℕ = length coeffs in
      let res : List ℕ = compute_lpc_residuals w t coeffs shift in
      let coeffs_words = map-All (λ x (f : Fits 32 precision x). f.0) coeffs hc in
      let back = restored_lpc coeffs shift one long (omega arith) coeffs_words in
      let valid : (precision - 1 == 0x0f) ≡ false = ground arith in
      let whole : precision - 1 + 1 ≡ precision = omega arith in
      let positive : leb (2 ^ 63) shift ≡ false = ground arith in
      let raws =
        raws_RoundTrip 32 precision coeffs (inl refl) (omega arith) (omega arith)
          (map-All (λ x f. Fits-FitsRaw 32 precision x some_bits f) coeffs hc) in
      let planned : Writer → Writer = write_planned w res order (length t) plans param_bits in
      let tail : Writer → Writer = λ b. planned (write_raws 32 precision coeffs b) in
      RoundTrip-then {e' = λ b. tail (write_signed_bits shift 5 b)} _
        (RoundTrip-write_bits (precision - 1) 4 (omega arith) (omega arith))
        (rw valid (
          RoundTrip-then {e' = tail} _ (shift_RoundTrip shift small) (
            rw (positive, whole)
              (RoundTrip-then {e' = planned} _ raws (
                RoundTrip-width (omega arith) (
                  RoundTrip-then {n = 0} {e' = λ b. b} _
                    (residual_RoundTrip order param_bits plans res c) (RoundTrip-done _ back)))))))

  pub RoundTrip-lpc :
      (coeffs : List ℕ) (shift precision param_bits : ℕ) (plans : List Plan)
      → 1 ≤ length coeffs
      → length coeffs ≤ length t
      → shift < 16
      → 1 ≤ precision
      → precision ≤ 15
      → All (Fits 32 precision) coeffs
      → IsCoded w
          (length t)
          (length coeffs)
          param_bits
          plans
          (compute_lpc_residuals w t coeffs shift)
      → RoundTrip
          (length coeffs * eff + (4 + (5 + (length coeffs * precision + written plans param_bits))))
          (λ b.
            write_planned w
              (compute_lpc_residuals w t coeffs shift)
              (length coeffs)
              (length t)
              plans
              param_bits
              (write_raws 32 precision coeffs (
                write_signed_bits shift 5
                  (write_bits (precision - 1) 4 (write_raws w eff (take (length coeffs) t) b)))))
          (decode_lpc w ceiling (length t) (length coeffs) eff >>= λ dst.
            checked w (length coeffs) eff dst)
          t
  unfolding decode_lpc
  RoundTrip-lpc coeffs shift precision param_bits plans one long small some_bits le15 hc c =
      let order : ℕ = length coeffs in
      let res : List ℕ = compute_lpc_residuals w t coeffs shift in
      let rest =
        lpc_rest_RoundTrip coeffs shift precision param_bits plans one long small some_bits le15 hc
          c in
      let tail : Writer → Writer = λ b. write_planned w res order (length t) plans param_bits (
        write_raws 32 precision coeffs
          (write_signed_bits shift 5 (write_bits (precision - 1) 4 b))) in
      RoundTrip-width (omega arith) (
        RoundTrip-then {n = 0} {e' = λ b. b} _ (decoded order res tail long rest)
          (rw (checked_back order) (RoundTrip-end t)))
    where
      decoded :
          (order : ℕ) (res : List ℕ) (tail : Writer → Writer) {n : ℕ}
          → order ≤ length t
          → RoundTrip n tail (read_lpc_rest w ceiling (length t) order eff (take order t)) t
          → RoundTrip
              (order * eff + n)
              (λ b. tail (write_raws w eff (take order t) b))
              (decode_lpc w ceiling (length t) order eff)
              t
      decoded order res tail le rest = RoundTrip-then {e' = tail} _ (warmup_RoundTrip order le) rest

  pub RoundTrip-verbatim :
      RoundTrip (length t * eff) (write_raws w eff t) (decode_kind w ceiling (length t) 1 eff) t
  RoundTrip-verbatim = rw (kind_route w ceiling (length t) 1 eff) (raw_samples t fits)

  -- Every sample is the first one.
  pub RoundTrip-constant :
      (v : ℕ)
      → Fits w eff v
      → t ≡ replicate (length t) v
      → RoundTrip eff (write_signed_bits (widen w v) eff) (decode_kind w ceiling (length t) 0 eff) t
  unfolding decode_constant
  RoundTrip-constant v fv same =
      let (p, back) = RoundTrip-write_raw w eff v wide le short (Fits-FitsRaw w eff v pos fv) in
      rw (kind_route w ceiling (length t) 0 eff) (
        RoundTrip-width {m = eff + 0} (omega arith)
          (RoundTrip-then {n = 0} {e' = λ b. b} _ p (rw back (RoundTrip-done _ (sym same)))))

-- ===== src/Frame/Subframe/RoundTrip.antt =====
-- The parts of a subframe that every kind has: its header, its samples and its residual.
use go_flac.Prelude.{
  ℕ, zero, suc, ◌+◌, ◌-◌, ◌%◌, ◌^◌, ◌≤◌, ◌<◌, ◌≡◌, refl, ap, inl, inr, List, [], ◌∷◌, All, map,
  map-All, false, ltb, leb, ◌==◌, Bool-cases, if◌then◌else◌, arith, gt→leb,
}
use go_flac.Signed.{shl_w, sar, Fits}
use go_flac.Signed.Shift.{shl_w-sar}
use go_flac.Bitio.Writer.{Writer, write_bits, write_signed_bits, write_unary}
use go_flac.Bitio.Reader.{Run}
use go_flac.Bitio.RoundTrip.{
  RoundTrip, RoundTrip-write_bits, RoundTrip-write_unary, RoundTrip-then, RoundTrip-end,
  RoundTrip-done, RoundTrip-width,
}
use go_flac.Rice.{write_raws, widen, decode_residual}
use go_flac.Rice.Raw.{FitsRaw}
use go_flac.Frame.Subframe.{
  read_wasted_bits, defer_range, decode_subframe_residual, decode_kind, shift_back, decode_body,
  decode_subframe,
}
use go_flac.Frame.Subframe.Write.{write_subframe_header, write_samples}

-- The samples with the wasted bits shifted out, as they are stored.
abbrev pub stored : ℕ → ℕ → List ℕ → List ℕ
stored w wasted s = map (λ x. sar w x wasted) s

-- A sample that `bps` bits hold, of which the low `wasted` ones are zero.
abbrev pub IsSample : ℕ → ℕ → ℕ → ℕ → Type 0
IsSample w bps wasted x = (x % 2 ^ wasted ≡ 0) × Fits w bps x

pub stored-Fits :
    (w bps wasted : ℕ) (s : List ℕ)
    → wasted < bps
    → bps ≤ w
    → All (IsSample w bps wasted) s
    → All (Fits w (bps - wasted)) (stored w wasted s)
stored-Fits w bps wasted [] lt le h = tt
stored-Fits w bps wasted (x ∷ s) lt le ((zeros, fits), h) =
    ((shl_w-sar w bps wasted x lt le zeros fits).1, stored-Fits w bps wasted s lt le h)

shifted_back :
    (w bps wasted : ℕ) (s : List ℕ)
    → wasted < bps
    → bps ≤ w
    → All (IsSample w bps wasted) s
    → map (λ x. shl_w w x wasted) (stored w wasted s) ≡ s
shifted_back w bps wasted [] lt le h = refl
shifted_back w bps wasted (x ∷ s) lt le ((zeros, fits), h) =
    rw ((shl_w-sar w bps wasted x lt le zeros fits).0, shifted_back w bps wasted s lt le h) refl

pub sar-zero : (w x : ℕ) → x < 2 ^ w → sar w x 0 ≡ x
unfolding sar
sar-zero w x lt = ground arith

pub shift_back-stored :
    (w bps wasted : ℕ) (s : List ℕ)
    → wasted < bps
    → bps ≤ w
    → All (IsSample w bps wasted) s
    → shift_back w wasted (stored w wasted s) ≡ s
unfolding shift_back
shift_back-stored w bps wasted s lt le h = elim (Bool-cases (ltb 0 wasted)) [
  | inl some_bits ↦ rw some_bits (shifted_back w bps wasted s lt le h)
  | inr none_out ↦
      let e : wasted ≡ 0 = ground arith in
      rw e (untouched s (map-All (λ x (f : IsSample w bps wasted x). f.1.0) s h))
]
  where
    untouched : (s : List ℕ) → All (λ x. x < 2 ^ w) s → stored w 0 s ≡ s
    untouched [] h = refl
    untouched (x ∷ s) (hx, h) = rw (sar-zero w x hx, untouched s h) refl

pub write_samples-write_raws :
    (w wasted eff : ℕ) (s : List ℕ)
    → write_samples w wasted eff s ≡ write_raws w eff (stored w wasted s)
unfolding write_samples write_raws
write_samples-write_raws w wasted eff [] = refl
write_samples-write_raws w wasted eff (x ∷ s) =
    ap
      (λ (e : Writer → Writer).
        λ (b : Writer). e (write_signed_bits (widen w (sar w x wasted)) eff b))
      (write_samples-write_raws w wasted eff s)

-- `FitsRaw` of the residuals, at a positive width.
pub Fits-FitsRaw : (w n x : ℕ) → 1 ≤ n → Fits w n x → FitsRaw w n x
Fits-FitsRaw w n x pos (word, fits) = (word, inr (pos, fits))

-- The flag of the wasted bits and their number.
abbrev write_wasted : ℕ → Writer → Writer
write_wasted wasted =
    if wasted == 0 then write_bits 0 1 else (λ b. write_unary (wasted - 1) (write_bits 1 1 b))

RoundTrip-write_wasted :
    (wasted : ℕ)
    → wasted ≤ 32
    → RoundTrip (1 + wasted) (write_wasted wasted) read_wasted_bits wasted
unfolding read_wasted_bits
RoundTrip-write_wasted zero le =
    RoundTrip-then {n = 0} {e' = λ b. b} _ (RoundTrip-write_bits 0 1 (omega arith) (omega arith))
      (RoundTrip-end 0)
RoundTrip-write_wasted (suc q) le =
    let small : leb 32 q ≡ false = gt→leb 32 q (omega arith) in
    let some_bits : (suc q == 0) ≡ false = ground arith in
    let e : suc q - 1 ≡ q = omega arith in
    rw (some_bits, e)
      (RoundTrip-width {m = 1 + (q + 1 + 0)} (omega arith) (
        RoundTrip-then {e' = write_unary q} _ (RoundTrip-write_bits 1 1 (omega arith) (omega arith))
          (RoundTrip-then {n = 0} {e' = λ b. b} _ (RoundTrip-write_unary q)
            (rw small (RoundTrip-done (q + 1) (omega arith))))))

header_fields :
    (code wasted : ℕ)
    → write_subframe_header code wasted
      ≡ (λ b. write_wasted wasted (write_bits code 6 (write_bits 0 1 b)))
unfolding write_subframe_header
header_fields code wasted = elim (Bool-cases (wasted == 0)) [
  | inl e ↦ rw e refl
  | inr e ↦ rw e refl
]

-- A subframe around what its kind writes.
pub RoundTrip-write_subframe_header :
    {e : Writer → Writer} (w ceiling len bps code wasted n : ℕ) (dst : List ℕ)
    → code < 64
    → wasted ≤ 32
    → wasted < bps
    → RoundTrip n e (decode_kind w ceiling len code (bps - wasted)) dst
    → RoundTrip
        (8 + wasted + n)
        (λ b. e (write_subframe_header code wasted b))
        (decode_subframe w ceiling len bps)
        (shift_back w wasted dst)
unfolding decode_subframe decode_body
RoundTrip-write_subframe_header {e = e} w ceiling len bps code wasted n dst small few lt p =
    let room : leb bps wasted ≡ false = gt→leb bps wasted lt in
    rw (header_fields code wasted) (
      RoundTrip-width {m = 1 + (6 + (1 + wasted + (n + 0)))} (omega arith) (
        RoundTrip-then {e' = λ b. e (write_wasted wasted (write_bits code 6 b))} _
          (RoundTrip-write_bits 0 1 (omega arith) (omega arith))
          (RoundTrip-then {e' = λ b. e (write_wasted wasted b)} _
            (RoundTrip-write_bits code 6 (omega arith) (omega arith))
            (RoundTrip-then {e' = e} _ (RoundTrip-write_wasted wasted few) (
              rw room (
                RoundTrip-then {n = 0} {e' = λ b. b} _ p
                  (RoundTrip-end (shift_back w wasted dst))))))))

-- The residual, whose range errors the subframe defers.
pub RoundTrip-deferred :
    {e : Writer → Writer} (w len order n : ℕ) (res : List ℕ)
    → RoundTrip n e (decode_residual w len order) res
    → RoundTrip n e (decode_subframe_residual w len order) res
unfolding decode_subframe_residual
RoundTrip-deferred w len order n res p = record {
  bits = p.bits;
  width = p.width;
  appends = p.appends;
  reads = λ b rest valid front.
      let (b', run, v, same) = p.reads b rest valid front in
      (b', ap (λ (r : Run _). defer_range r) run, v, same);
}

-- ===== src/Frame/Subframe/Safe.antt =====
-- What a subframe decodes to fits the depth, whatever the input.
use go_flac.Prelude.{
  ℕ, ◌-◌, ◌≤◌, ◌<◌, ◌≡◌, inl, inr, List, [], ◌∷◌, All, map, leb, ltb, ◌==◌, Bool-cases, arith,
  if◌then◌else◌,
}
use go_flac.Errors.{unsupported}
use go_flac.Signed.{Fits, shl_w}
use go_flac.Signed.Shift.{shl_w-Fits}
use go_flac.Bitio.Reader.{M, pure, ◌>>=◌, fail}
use go_flac.Bitio.Reader.Read.{read_bits}
use go_flac.Bitio.Reader.Every.{Every, Every-then, Every-any, Every-if, Every-test, Every-fail}
use go_flac.Rice.Fold.{IsWidth}
use go_flac.Frame.Subframe.{read_wasted_bits, decode_kind, shift_back, decode_body, decode_subframe}
use go_flac.Frame.Subframe.Checked.{kind-Fits}

shift_back-Fits :
    (w bps wasted : ℕ) (s : List ℕ)
    → wasted < bps
    → bps ≤ w
    → All (Fits w (bps - wasted)) s
    → All (Fits w bps) (shift_back w wasted s)
unfolding shift_back
shift_back-Fits w bps wasted s lt le h = elim (Bool-cases (ltb 0 wasted)) [
  | inl some_bits ↦ rw some_bits (go s h)
  | inr none_out ↦
      let e : bps - wasted ≡ bps = ground arith in
      let whole : All (Fits w bps) s = rw e at h in rw none_out whole
]
  where
    go :
        (s : List ℕ)
        → All (Fits w (bps - wasted)) s
        → All (Fits w bps) (map (λ x. shl_w w x wasted) s)
    go [] h = tt
    go (x ∷ s) (f, h) = (shl_w-Fits w bps wasted x lt le f, go s h)

body-Fits :
    (w ceiling len bps : ℕ)
    → IsWidth w
    → bps ≤ w
    → bps < 64
    → Every (All (Fits w bps)) (decode_body w ceiling len bps)
unfolding decode_body
body-Fits w ceiling len bps width le lt =
    Every-then (λ t. Unit) P (read_bits 6) (λ stype. read_wasted_bits >>= past stype)
      (Every-any (read_bits 6))
      (λ stype u.
        Every-then (λ t. Unit) P read_wasted_bits (past stype) (Every-any read_wasted_bits)
          (λ wasted u'.
            Every-test P (leb bps wasted) (fail unsupported) (kind stype wasted)
              (λ e. Every-fail P unsupported)
              (λ e.
                let few : wasted < bps = ground arith in
                Every-then (All (Fits w (bps - wasted))) P
                  (decode_kind w ceiling len stype (bps - wasted))
                  (λ dst. pure (shift_back w wasted dst))
                  (kind-Fits w (bps - wasted) width (omega arith) (omega arith) (omega arith)
                    ceiling len stype)
                  (λ dst h b. shift_back-Fits w bps wasted dst few le h))))
  where
    P : List ℕ → Type 0
    P = All (Fits w bps)

    kind : ℕ → ℕ → M (List ℕ)
    kind stype wasted =
        decode_kind w ceiling len stype (bps - wasted) >>= λ dst. pure (shift_back w wasted dst)

    past : ℕ → ℕ → M (List ℕ)
    past stype wasted = if leb bps wasted then fail unsupported else kind stype wasted

-- `decodeSubframe` returns only samples that fit, whatever the input.
pub decode_subframe-Fits :
    (w ceiling len bps : ℕ)
    → IsWidth w
    → bps ≤ w
    → bps < 64
    → Every (All (Fits w bps)) (decode_subframe w ceiling len bps)
unfolding decode_subframe
decode_subframe-Fits w ceiling len bps width le lt =
    Every-then (λ t. Unit) (All (Fits w bps)) (read_bits 1)
      (λ pad. if pad == 0 then decode_body w ceiling len bps else fail unsupported)
      (Every-any (read_bits 1))
      (λ pad u.
        Every-if (All (Fits w bps)) (pad == 0) (decode_body w ceiling len bps) (fail unsupported)
          (body-Fits w ceiling len bps width le lt) (Every-fail (All (Fits w bps)) unsupported))

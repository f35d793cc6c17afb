-- ===== src/Frame/Subframe/Checked.antt =====
-- What each kind of subframe decodes to fits the width, whatever the input.
use go_flac.Prelude.{
  ℕ, zero, suc, ◌+◌, ◌-◌, ◌%◌, ◌^◌, ◌≤◌, ◌<◌, ◌≡◌, sym, ◌∙◌, inl, inr, List, ◌++◌, All, drop,
  drop-append, map-All, replicate, leb, ltb, ◌==◌, ◌&&◌, Bool-cases, arith, if◌then◌else◌,
}
use go_flac.Errors.{unsupported, residual_range}
use go_flac.Signed.{Fits}
use go_flac.Bitio.Reader.{Run, ok, err, M, pure, ◌>>=◌, fail}
use go_flac.Bitio.Reader.Read.{read_bits, read_signed}
use go_flac.Bitio.Reader.Every.{
  Returns, Every, Every-then, Every-any, Every-if, Every-test, Every-weaken, Every-fail,
}
use go_flac.Rice.{read_raws, decode_residual}
use go_flac.Rice.Fold.{IsWidth}
use go_flac.Rice.Words.{All-append, decode_residual-Words}
use go_flac.Rice.Samples.{IsWord, Count, read_signed-Fits, read_raws-Fits, read_raws-Words}
use go_flac.Frame.Subframe.{
  decode_warmup, defer_range, decode_subframe_residual, in_range, restore_fixed_by, restore_lpc_by,
  read_lpc_rest, decode_lpc, checked, decode_fixed, decode_constant, decode_kind,
}
use go_flac.Frame.Subframe.Range.{in_range_iff}
use go_flac.Frame.Subframe.Prefix.{Extends}
use go_flac.Frame.Subframe.Restored.{restore_fixed_by-Extends, restore_lpc_by-Extends}
use go_flac.Frame.Subframe.Routes.{kind_route}

-- A warm-up that fits, with words behind it: what the bounds check lets through fits.
abbrev IsRestored : ℕ → ℕ → ℕ → List ℕ → Type 0
IsRestored w order bps dst = (front : List ℕ) × Count (Fits w bps) order front × Extends w front dst

Width-le : (w : ℕ) → IsWidth w → w ≤ 64
Width-le w (inl e) = rw e (omega arith)
Width-le w (inr e) = rw e (omega arith)

module _ (w bps : ℕ) (width : IsWidth w) (pos : 1 ≤ bps) (le : bps ≤ w) (lt : bps < 64) where
  checked-Fits :
      (order : ℕ) (dst : List ℕ)
      → IsRestored w order bps dst
      → Every (All (Fits w bps)) (checked w order bps dst)
  unfolding checked
  checked-Fits order dst (front, (len, fits), (behind, e, words)) =
      let past : drop order dst ≡ behind = rw e (rw len at (drop-append front behind)) in
      rw past (elim (Bool-cases (in_range w behind bps)) [
        | inl good ↦
            let all = (in_range_iff w bps behind width pos le lt words).0 good in
            rw (good, e) (λ b. All-append (Fits w bps) front behind fits all)
        | inr bad ↦ rw bad (λ b. tt)
      ])

  warmup-Fits : (len order : ℕ) → Every (Count (Fits w bps) order) (decode_warmup w len order bps)
  unfolding decode_warmup
  warmup-Fits len order =
      Every-if (Count (Fits w bps) order) (ltb len order) (fail unsupported) (read_raws w bps order)
        (Every-fail (Count (Fits w bps) order) unsupported)
        (read_raws-Fits w bps order (Width-le w width) pos le)

  residual-Words : (len order : ℕ) → Every (All (IsWord w)) (decode_subframe_residual w len order)
  unfolding decode_subframe_residual
  residual-Words len order b =
      go (decode_residual w len order b) (decode_residual-Words w len order b)
    where
      go :
          (r : Run (List ℕ)) → Returns (All (IsWord w)) r → Returns (All (IsWord w)) (defer_range r)
      go (ok a t) h = h
      go (err residual_range t) h = tt
      go (err e t) h = tt

  fixed-Fits : (len order : ℕ) → order ≤ 4 → Every (All (Fits w bps)) (decode_fixed w len order bps)
  unfolding decode_fixed
  fixed-Fits len order small =
      Every-then (Count (Fits w bps) order) (All (Fits w bps)) (decode_warmup w len order bps)
        (λ warmup. decode_subframe_residual w len order >>= λ res.
          checked w order bps (restore_fixed_by w (warmup ++ res) order))
        (warmup-Fits len order)
        (λ front h.
          Every-then (All (IsWord w)) (All (Fits w bps)) (decode_subframe_residual w len order)
            (λ res. checked w order bps (restore_fixed_by w (front ++ res) order))
            (residual-Words len order)
            (λ res words. checked-Fits order (restore_fixed_by w (front ++ res) order) (
              front,
              h,
              restore_fixed_by-Extends w order front res width small h.0
                  (map-All (λ x (f : Fits w bps x). f.0) front h.1) words,
            )))

  lpc_rest-IsRestored :
      (ceiling len order : ℕ) (front : List ℕ)
      → Count (Fits w bps) order front
      → Every (IsRestored w order bps) (read_lpc_rest w ceiling len order bps front)
  unfolding read_lpc_rest
  lpc_rest-IsRestored ceiling len order front h =
      Every-then (λ c. Unit) IsDone (read_bits 4)
        (λ c. if c == 0x0f then fail unsupported else past_code c) (Every-any (read_bits 4))
        (λ c u.
          Every-if IsDone (c == 0x0f) (fail unsupported) (past_code c)
            (Every-fail IsDone unsupported)
            (Every-then (λ v. Unit) IsDone (read_signed 5)
              (λ v. if leb (2 ^ 63) v then fail unsupported else past_shift c v)
              (Every-any (read_signed 5))
              (λ v u'.
                Every-if IsDone (leb (2 ^ 63) v) (fail unsupported) (past_shift c v)
                  (Every-fail IsDone unsupported) (shift_done c v))))
    where
      IsDone : List ℕ → Type 0
      IsDone = IsRestored w order bps

      past_coeffs : ℕ → List ℕ → M (List ℕ)
      past_coeffs v coeffs = decode_subframe_residual w len order >>= λ res.
          pure (restore_lpc_by w ceiling (front ++ res) coeffs v bps)

      past_shift : ℕ → ℕ → M (List ℕ)
      past_shift c v = read_raws 32 (c + 1) order >>= past_coeffs v

      past_code : ℕ → M (List ℕ)
      past_code c =
          read_signed 5 >>= λ v. if leb (2 ^ 63) v then fail unsupported else past_shift c v

      shift_done : (c v : ℕ) → Every IsDone (past_shift c v)
      shift_done c v =
          Every-then (Count (IsWord 32) order) IsDone (read_raws 32 (c + 1) order) (past_coeffs v)
            (read_raws-Words 32 (c + 1) order)
            (λ coeffs k.
              Every-then (All (IsWord w)) IsDone (decode_subframe_residual w len order)
                (λ res. pure (restore_lpc_by w ceiling (front ++ res) coeffs v bps))
                (residual-Words len order)
                (λ res words b. (
                  front,
                  h,
                  restore_lpc_by-Extends w ceiling front res coeffs v bps width (h.0 ∙ sym k.0)
                      words,
                )))

  lpc-IsRestored :
      (ceiling len order : ℕ) → Every (IsRestored w order bps) (decode_lpc w ceiling len order bps)
  unfolding decode_lpc
  lpc-IsRestored ceiling len order =
      Every-then (Count (Fits w bps) order) (IsRestored w order bps) (decode_warmup w len order bps)
        (read_lpc_rest w ceiling len order bps) (warmup-Fits len order)
        (λ front h. lpc_rest-IsRestored ceiling len order front h)

  constant-Fits : (len : ℕ) → Every (All (Fits w bps)) (decode_constant w len bps)
  unfolding decode_constant
  constant-Fits len =
      Every-then (λ v. Fits w bps (v % 2 ^ w)) (All (Fits w bps)) (read_signed bps)
        (λ v. pure (replicate len (v % 2 ^ w))) (read_signed-Fits w bps (Width-le w width) pos le)
        (λ v f b. copies len (v % 2 ^ w) f)
    where
      copies : (n x : ℕ) → Fits w bps x → All (Fits w bps) (replicate n x)
      copies zero x f = tt
      copies (suc n) x f = (f, copies n x f)

  pub kind-Fits :
      (ceiling len stype : ℕ) → Every (All (Fits w bps)) (decode_kind w ceiling len stype bps)
  kind-Fits ceiling len stype = rw (kind_route w ceiling len stype bps) (
      Every-if P (stype == 0) (decode_constant w len bps) _ (constant-Fits len) (
        Every-if P (stype == 1) (read_raws w bps len) _ verbatim (
          Every-test P (leb 8 stype && leb stype 12) (decode_fixed w len (stype - 8) bps) _
            (λ e. fixed-Fits len (stype - 8) (ground arith))
            (λ e.
              Every-if P (leb 32 stype) lpc (fail unsupported) lpc_fits
                (Every-fail P unsupported)))))
    where
      P : List ℕ → Type 0
      P = All (Fits w bps)

      verbatim : Every P (read_raws w bps len)
      verbatim =
          Every-weaken (Count (Fits w bps) len) P (read_raws w bps len) (λ s h. h.1)
            (read_raws-Fits w bps len (Width-le w width) pos le)

      lpc : M (List ℕ)
      lpc = decode_lpc w ceiling len (stype - 31) bps >>= λ dst. checked w (stype - 31) bps dst

      lpc_fits : Every P lpc
      lpc_fits =
          Every-then (IsRestored w (stype - 31) bps) P (decode_lpc w ceiling len (stype - 31) bps)
            (λ dst. checked w (stype - 31) bps dst) (lpc-IsRestored ceiling len (stype - 31))
            (λ dst h. checked-Fits (stype - 31) dst h)

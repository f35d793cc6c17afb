-- ===== src/Frame/Decode/Channels.antt =====
-- The stereo modes: `decodeStereoDecorrelated` against `encodeStereo` and `encodeStereo64`.
use go_flac.Prelude.{
  ℕ, ◌+◌, ◌-◌, ◌%◌, ◌^◌, ◌≤◌, ◌<◌, ◌≡◌, refl, ap, ◌∙◌, inl, List, [], ◌∷◌, All, map-All, length,
  some, true, ◌&&◌, arith,
}
use go_flac.Prelude.Pow.{pow_mono}
use go_flac.Signed.{sar, add_w, Fits}
use go_flac.Bitio.Writer.{Writer}
use go_flac.Bitio.Reader.{M, Run, pure, ◌>>=◌}
use go_flac.Bitio.RoundTrip.{RoundTrip, RoundTrip-then, RoundTrip-end, RoundTrip-width}
use go_flac.I32.{half32, add32, sub, zip_with, mid_side_encode}
use go_flac.I32.Stereo.{IsNarrow}
use go_flac.I32.Fixed.{IsWord32}
use go_flac.Rice.Fold.{IsWidth}
use go_flac.Frame.Decorrelate.{
  decorrelate_left_side, decorrelate_right_side, decorrelate_mid_side, decorrelate_side-sub,
  decorrelate_mid_side-mid_side_encode,
}
use go_flac.Frame.Subframe.{in_range, decode_subframe}
use go_flac.Frame.Subframe.Range.{in_range_iff}
use go_flac.Frame.Subframe.Write.{SubframePlan, write_subframe}
use go_flac.Frame.Subframe.RoundTrip.{IsSample}
use go_flac.Frame.Subframe.Plan.{kind_bits, IsPlanOf}
use go_flac.Frame.Subframe.Correct.{decode_subframe-write_subframe}
use go_flac.Frame.Encode.{sides, mids, Candidates, write_pair}
use go_flac.Frame.Decode.{verdict, deferred, both, decode_pair, in_bounds, undo_stereo}

pub RoundTrip-verdict :
    {A : Type 0} {n : ℕ} {e : Writer → Writer} {d : M A} {a : A}
    → RoundTrip n e d a
    → RoundTrip n e (deferred d) (some a)
RoundTrip-verdict p = record {
  bits = p.bits;
  width = p.width;
  appends = p.appends;
  reads = λ b rest valid front.
      let (b', run, v, same) = p.reads b rest valid front in
      (b', ap (λ (r : Run _). verdict r) run, v, same);
}

-- A plan that writes the block `s` at the depth `bps`.
pub record IsWritten (w bps precision : ℕ) (s : List ℕ) (plan : SubframePlan) : Type 0 where
  pub wasted_lt : plan.wasted < bps
  pub samples : All (IsSample w bps plan.wasted) s
  pub planned : IsPlanOf plan.kind w s precision plan

abbrev pub bits_of : ℕ → ℕ → ℕ → SubframePlan → ℕ
bits_of bps precision len plan = 8 + kind_bits plan.kind len bps precision plan

pair_route :
    (w ceiling len wa wb : ℕ)
    → decode_pair w ceiling len wa wb ≡ (
        deferred (decode_subframe w ceiling len wa) >>= λ a.
        deferred (decode_subframe w ceiling len wb) >>= λ b. pure (both a b))
unfolding decode_pair
pair_route w ceiling len wa wb = refl

pub RoundTrip-decode_pair :
    (w ceiling len wa wb precision : ℕ) (a b : List ℕ) (pa pb : SubframePlan)
    → IsWidth w
    → wa ≤ w
    → wa ≤ 33
    → wb ≤ w
    → wb ≤ 33
    → 1 ≤ len
    → length a ≡ len
    → length b ≡ len
    → IsWritten w wa precision a pa
    → IsWritten w wb precision b pb
    → RoundTrip
        (bits_of wa precision len pa + bits_of wb precision len pb)
        (λ t. write_subframe w b wb pb precision (write_subframe w a wa pa precision t))
        (decode_pair w ceiling len wa wb)
        (some (a, b))
RoundTrip-decode_pair w ceiling len wa wb precision a b pa pb wide la la' lb lb' pos ea eb ha hb =
    let p =
      decode_subframe-write_subframe w ceiling wa precision a pa wide la la' ha.wasted_lt
        (omega arith) ha.samples ha.planned in
    let q =
      decode_subframe-write_subframe w ceiling wb precision b pb wide lb lb' hb.wasted_lt
        (omega arith) hb.samples hb.planned in
    let p' = RoundTrip-verdict (rw ea at p) in
    let q' = RoundTrip-verdict (rw eb at q) in
    rw (pair_route w ceiling len wa wb) (
      RoundTrip-then {e' = λ t. write_subframe w b wb pb precision t} _ p' (
        RoundTrip-width (omega arith)
          (RoundTrip-then {n = 0} {e' = λ t. t} _ q' (RoundTrip-end (some (a, b))))))

pub data Mode : Type 0 where
  left_side right_side mid_side : Mode

abbrev pub code_of : Mode → ℕ
code_of left_side = 8
code_of right_side = 9
code_of mid_side = 10

-- The two subframes of a mode, with their widths and plans.
abbrev pub first : Mode → ℕ → List ℕ → List ℕ → List ℕ
first left_side w l r = l
first right_side w l r = sides w l r
first mid_side w l r = mids w l r

abbrev pub second : Mode → ℕ → List ℕ → List ℕ → List ℕ
second right_side w l r = r
second _ w l r = sides w l r

abbrev pub first_width : Mode → ℕ → ℕ
first_width right_side bps = bps + 1
first_width _ bps = bps

abbrev pub second_width : Mode → ℕ → ℕ
second_width right_side bps = bps
second_width _ bps = bps + 1

abbrev pub first_plan : Mode → Candidates → SubframePlan
first_plan left_side c = c.plan_l
first_plan right_side c = c.plan_s
first_plan mid_side c = c.plan_m

abbrev pub second_plan : Mode → Candidates → SubframePlan
second_plan right_side c = c.plan_r
second_plan _ c = c.plan_s

pub write_pair-mode :
    (m : Mode) (w bps precision : ℕ) (l r : List ℕ) (c : Candidates)
    → write_pair w bps precision (code_of m) l r c ≡ (λ b.
      write_subframe w
        (second m w l r)
        (second_width m bps)
        (second_plan m c)
        precision
        (write_subframe w (first m w l r) (first_width m bps) (first_plan m c) precision b))
unfolding write_pair
write_pair-mode left_side w bps precision l r c = refl
write_pair-mode right_side w bps precision l r c = refl
write_pair-mode mid_side w bps precision l r c = refl

half : (a : ℕ) → a < 2 ^ 32 → sar 32 a 1 ≡ half32 a
unfolding sar
half a lt = ground arith

undo_left :
    (bps : ℕ) (a b : List ℕ)
    → undo_stereo 8 bps (a, b)
      ≡ in_bounds (in_range 32 (decorrelate_left_side a b).1 bps) (decorrelate_left_side a b)
unfolding undo_stereo
undo_left bps a b = refl

undo_right :
    (bps : ℕ) (a b : List ℕ)
    → undo_stereo 9 bps (a, b)
      ≡ in_bounds (in_range 32 (decorrelate_right_side a b).0 bps) (decorrelate_right_side a b)
unfolding undo_stereo
undo_right bps a b = refl

undo_mid :
    (bps : ℕ) (a b : List ℕ)
    → undo_stereo 10 bps (a, b)
      ≡ in_bounds
          (in_range 32 (decorrelate_mid_side a b).0 bps
            && in_range 32 (decorrelate_mid_side a b).1 bps)
          (decorrelate_mid_side a b)
unfolding undo_stereo
undo_mid bps a b = refl

module _ (bps : ℕ) (l r : List ℕ) (pos : 1 ≤ bps) (le : bps ≤ 24) (len : length l ≡ length r)
    (hl : All (Fits 32 bps) l) (hr : All (Fits 32 bps) r) where
  inside : (s : List ℕ) → All (Fits 32 bps) s → in_range 32 s bps ≡ true
  inside s h =
      (in_range_iff 32 bps s (inl refl) pos (omega arith) (omega arith)
          (map-All (λ x (f : Fits 32 bps x). f.0) s h)).1
        h

  words : (s : List ℕ) → All (Fits 32 bps) s → All IsWord32 s
  words s h = map-All (λ x (f : Fits 32 bps x). f.0) s h

  narrow : (s : List ℕ) → All (Fits 32 bps) s → All IsNarrow s
  narrow s h =
      let low : 2 ^ (bps - 1) ≤ 2 ^ 30 = pow_mono (bps - 1) 30 (omega arith) in
      map-All (λ x (f : Fits 32 bps x). ground arith) s h

  sides-sub : sides 32 l r ≡ sub l r
  unfolding sides sub
  sides-sub = refl

  sides-side : sides 32 l r ≡ (mid_side_encode l r).1
  unfolding sides mid_side_encode
  sides-side = refl

  mids-mid : mids 32 l r ≡ (mid_side_encode l r).0
  unfolding mids mid_side_encode
  mids-mid = same l r
    where
      same :
          (l r : List ℕ)
          → zip_with (λ a b. sar 32 (add_w 32 a b) 1) l r ≡ zip_with (λ a b. half32 (add32 a b)) l r
      same [] r = refl
      same (a ∷ l) [] = refl
      same (a ∷ l) (b ∷ r) = rw (half ((a + b) % 2 ^ 32) (omega arith), same l r) refl

  pub undone :
      (m : Mode) → undo_stereo (code_of m) bps (first m 32 l r, second m 32 l r) ≡ pure (l, r)
  undone left_side =
      let back = (decorrelate_side-sub l r len (words l hl) (words r hr)).0 in
      undo_left bps _ _ ∙ rw (sides-sub, back, inside r hr) refl
  undone right_side =
      let back = (decorrelate_side-sub l r len (words l hl) (words r hr)).1 in
      undo_right bps _ _ ∙ rw (sides-sub, back, inside l hl) refl
  undone mid_side =
      let back = decorrelate_mid_side-mid_side_encode l r len (narrow l hl) (narrow r hr) in
      undo_mid bps _ _ ∙ rw (mids-mid, sides-side, back, inside l hl, inside r hr) refl

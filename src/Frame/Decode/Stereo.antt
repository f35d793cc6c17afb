-- ===== src/Frame/Decode/Stereo.antt =====
-- A stereo frame's subframes, on the `int32` path and on the wide one.
use go_flac.Prelude.{
  ℕ, ◌+◌, ◌≤◌, ◌<◌, ◌≡◌, refl, sym, inl, List, [], ◌∷◌, All, length, true, false, leb, arith,
  gt→leb,
}
use go_flac.Signed.{Fits}
use go_flac.Bitio.Reader.{M, pure, ◌>>=◌}
use go_flac.Bitio.RoundTrip.{RoundTrip, RoundTrip-then, RoundTrip-done, RoundTrip-width}
use go_flac.I32.{zip_with}
use go_flac.Rice.Fold.{IsWidth}
use go_flac.Frame.Encode.{sides, mids, Candidates, write_pair}
use go_flac.Frame.Decode.{
  Pair, decode_pair, undo_stereo, undo_stereo64, when_in_range, decode_stereo_decorrelated,
}
use go_flac.Frame.Decode.Channels.{
  Mode, left_side, right_side, mid_side, code_of, first, second, first_width, second_width,
  first_plan, second_plan, IsWritten, bits_of, RoundTrip-decode_pair, write_pair-mode, undone,
}

length-zip_with :
    (f : ℕ → ℕ → ℕ) (l r : List ℕ) → length l ≡ length r → length (zip_with f l r) ≡ length l
length-zip_with f [] r e = refl
length-zip_with f (a ∷ l) [] e = absurd (omega arith)
length-zip_with f (a ∷ l) (b ∷ r) e = omega (arith, length-zip_with f l r (omega arith))

length-sides : (w : ℕ) (l r : List ℕ) → length l ≡ length r → length (sides w l r) ≡ length l
unfolding sides
length-sides w l r e = length-zip_with _ l r e

length-mids : (w : ℕ) (l r : List ℕ) → length l ≡ length r → length (mids w l r) ≡ length l
unfolding mids
length-mids w l r e = length-zip_with _ l r e

length-first :
    (m : Mode) (w : ℕ) (l r : List ℕ) → length l ≡ length r → length (first m w l r) ≡ length l
length-first left_side w l r e = refl
length-first right_side w l r e = length-sides w l r e
length-first mid_side w l r e = length-mids w l r e

length-second :
    (m : Mode) (w : ℕ) (l r : List ℕ) → length l ≡ length r → length (second m w l r) ≡ length l
length-second left_side w l r e = length-sides w l r e
length-second right_side w l r e = sym e
length-second mid_side w l r e = length-sides w l r e

narrow_route :
    (m : Mode) (ceiling len bps : ℕ)
    → leb 25 bps ≡ false
    → decode_stereo_decorrelated ceiling (code_of m) len bps ≡ (
        decode_pair 32 ceiling len (first_width m bps) (second_width m bps)
        >>= when_in_range (undo_stereo (code_of m) bps))
unfolding decode_stereo_decorrelated
narrow_route left_side ceiling len bps e = rw e refl
narrow_route right_side ceiling len bps e = rw e refl
narrow_route mid_side ceiling len bps e = rw e refl

pub wide_route :
    (m : Mode) (ceiling len bps : ℕ)
    → leb 25 bps ≡ true
    → decode_stereo_decorrelated ceiling (code_of m) len bps ≡ (
        decode_pair 64 ceiling len (first_width m bps) (second_width m bps)
        >>= when_in_range (undo_stereo64 (code_of m) bps))
unfolding decode_stereo_decorrelated
wide_route left_side ceiling len bps e = rw e refl
wide_route right_side ceiling len bps e = rw e refl
wide_route mid_side ceiling len bps e = rw e refl

widths_le : (m : Mode) (bps k : ℕ) → bps < k → (first_width m bps ≤ k) × (second_width m bps ≤ k)
widths_le left_side bps k lt = (omega arith, omega arith)
widths_le right_side bps k lt = (omega arith, omega arith)
widths_le mid_side bps k lt = (omega arith, omega arith)

-- Both widths, given the route and the mode undone.
pub pair_back :
    (w ceiling bps precision : ℕ) (m : Mode) (a b l r : List ℕ) (c : Candidates)
    (undo : Pair → M Pair)
    → IsWidth w
    → bps < w
    → bps < 33
    → 1 ≤ length a
    → length a ≡ length b
    → undo (first m w a b, second m w a b) ≡ pure (l, r)
    → IsWritten w (first_width m bps) precision (first m w a b) (first_plan m c)
    → IsWritten w (second_width m bps) precision (second m w a b) (second_plan m c)
    → RoundTrip
        (bits_of (first_width m bps) precision (length a) (first_plan m c)
          + bits_of (second_width m bps) precision (length a) (second_plan m c))
        (write_pair w bps precision (code_of m) a b c)
        (decode_pair w ceiling (length a) (first_width m bps) (second_width m bps)
          >>= when_in_range undo)
        (l, r)
pair_back w ceiling bps precision m a b l r c undo wide lt lt33 pos len back hf hs =
    let (fw, sw) = widths_le m bps w lt in
    let (f33, s33) = widths_le m bps 33 lt33 in
    let p =
      RoundTrip-decode_pair w ceiling (length a) (first_width m bps) (second_width m bps) precision
        (first m w a b) (second m w a b) (first_plan m c) (second_plan m c) wide fw f33 sw s33 pos
        (length-first m w a b len) (length-second m w a b len) hf hs in
    rw (write_pair-mode m w bps precision a b c) (
      RoundTrip-width (omega arith) (
        RoundTrip-then {n = 0} {e' = λ t. t} (when_in_range undo) p
          (rw back (RoundTrip-done {A = Pair} (l, r) refl))))

-- For a block of two channels that fit in `bps` bits, up to 24, `decodeStereoDecorrelated` gives the
-- channels back from the two subframes that `encodeStereo` writes in each of the three modes, and
-- reads exactly the bits planned, if the plans describe what they write.
pub decode_stereo_decorrelated-write_pair :
    (ceiling bps precision : ℕ) (m : Mode) (l r : List ℕ) (c : Candidates)
    → 1 ≤ bps
    → bps ≤ 24
    → 1 ≤ length l
    → length l ≡ length r
    → All (Fits 32 bps) l
    → All (Fits 32 bps) r
    → IsWritten 32 (first_width m bps) precision (first m 32 l r) (first_plan m c)
    → IsWritten 32 (second_width m bps) precision (second m 32 l r) (second_plan m c)
    → RoundTrip
        (bits_of (first_width m bps) precision (length l) (first_plan m c)
          + bits_of (second_width m bps) precision (length l) (second_plan m c))
        (write_pair 32 bps precision (code_of m) l r c)
        (decode_stereo_decorrelated ceiling (code_of m) (length l) bps)
        (l, r)
decode_stereo_decorrelated-write_pair ceiling bps precision m l r c pos le some_samples len hl hr hf
      hs =
    rw (narrow_route m ceiling (length l) bps (gt→leb 25 bps (omega arith))) (
      pair_back 32 ceiling bps precision m l r l r c (undo_stereo (code_of m) bps) (inl refl)
        (omega arith) (omega arith) some_samples len (undone bps l r pos le len hl hr m) hf hs)

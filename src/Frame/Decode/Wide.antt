-- ===== src/Frame/Decode/Wide.antt =====
-- The stereo modes undone on the wide path, and a wide frame's subframes.
use go_flac.Prelude.{
  ℕ, suc, ◌+◌, ◌-◌, ◌*◌, ◌%◌, ◌^◌, ◌≤◌, ◌<◌, ◌≡◌, refl, ap, ◌⊎◌, inr, List, [], ◌∷◌, All, length,
  true, false, arith, le→leb, bit_and,
}
use go_flac.Prelude.Pow.{pow_mono, pow-pos}
use go_flac.Prelude.Bits.{or_fields, and_mask}
use go_flac.Signed.{add_w, sub_w, sar, Fits}
use go_flac.Bitio.Reader.{pure}
use go_flac.Bitio.RoundTrip.{RoundTrip}
use go_flac.Rice.{widen}
use go_flac.Frame.Subframe.{out_of_range}
use go_flac.Frame.Encode.{side_of, mid_of, sides, mids, upcast, Candidates, write_pair}
use go_flac.Frame.Decode.Stereo64.{
  Derived, limit, sum64, left64, right64, decorrelate_left_side64, decorrelate_right_side64,
  decorrelate_mid_side64,
}
use go_flac.Frame.Decode.{derived, undo_stereo64, decode_stereo_decorrelated}
use go_flac.Frame.Decode.Channels.{
  Mode, left_side, right_side, mid_side, code_of, first, second, first_width, second_width,
  first_plan, second_plan, IsWritten, bits_of,
}
use go_flac.Frame.Decode.Stereo.{wide_route, pair_back}

-- A 64-bit pattern within `lim` on either side of zero.
abbrev Near : ℕ → ℕ → Type 0
Near lim x = (x < 2 ^ 64) × ((x < lim) ⊎ (2 ^ 64 ≤ x + lim))

widen-Near :
    (bps x : ℕ)
    → bps ≤ 32
    → Fits 32 bps x
    → Near (limit bps) (widen 32 x) × (widen 32 x % 2 ^ 32 ≡ x)
unfolding widen
widen-Near bps x le (word, small) =
    let low : 2 ^ (bps - 1) ≤ 2 ^ 31 = pow_mono (bps - 1) 31 (omega arith) in ground arith

offset_in_bounds : (lim x : ℕ) → 1 ≤ lim → lim ≤ 2 ^ 31 → Near lim x → out_of_range lim x ≡ false
offset_in_bounds lim x pos le h = ground arith

left_out : (l r : ℕ) → l < 2 ^ 64 → r < 2 ^ 64 → sub_w 64 l (sub_w 64 l r) ≡ r
left_out l r hl hr = omega arith

right_out : (l r : ℕ) → l < 2 ^ 64 → r < 2 ^ 64 → add_w 64 r (sub_w 64 l r) ≡ l
right_out l r hl hr = omega arith

sum64_lem : (mid side : ℕ) → sum64 mid side ≡ mid * 2 % 2 ^ 64 + side % 2
sum64_lem mid side =
    let low : bit_and side 1 ≡ side % 2 = and_mask 1 side in
    let high : mid * 2 % 2 ^ 64 ≡ mid % 2 ^ 63 * 2 ^ 1 = omega arith in
    rw (low, high) (or_fields 1 (mid % 2 ^ 63) (side % 2) (omega arith))

mid_left :
    (l r : ℕ) → Near (2 ^ 31) l → Near (2 ^ 31) r → left64 (mid_of 64 l r) (side_of 64 l r) ≡ l
unfolding sar
mid_left l r hl hr = rw (sum64_lem (mid_of 64 l r) (side_of 64 l r)) (ground arith)

mid_right :
    (l r : ℕ) → Near (2 ^ 31) l → Near (2 ^ 31) r → right64 (mid_of 64 l r) (side_of 64 l r) ≡ r
unfolding sar
mid_right l r hl hr = rw (sum64_lem (mid_of 64 l r) (side_of 64 l r)) (ground arith)

-- The samples that came out are all in range.
abbrev exactly : List ℕ → List ℕ → Derived
exactly l r = record { fits = true; left = l; right = r }

-- One sample of either channel, in `int64`.
module _ (bps : ℕ) (pos : 1 ≤ bps) (le : bps ≤ 32) where
  one :
      (x : ℕ)
      → Fits 32 bps x
      → (widen 32 x < 2 ^ 64)
        × Near (2 ^ 31) (widen 32 x)
        × (out_of_range (limit bps) (widen 32 x) ≡ false)
        × (widen 32 x % 2 ^ 32 ≡ x)
  one x fx =
      let (near, back) = widen-Near bps x le fx in
      let low : limit bps ≤ 2 ^ 31 = pow_mono (bps - 1) 31 (omega arith) in
      (
        near.0,
        ground arith,
        offset_in_bounds (limit bps) (widen 32 x) (pow-pos (bps - 1)) low near,
        back,
      )

  left_side_back :
      (l r : List ℕ)
      → length l ≡ length r
      → All (Fits 32 bps) l
      → All (Fits 32 bps) r
      → decorrelate_left_side64 (upcast l) (sides 64 (upcast l) (upcast r)) bps ≡ exactly l r
  unfolding decorrelate_left_side64 sides
  left_side_back [] [] len hl hr = refl
  left_side_back [] (b ∷ r) len hl hr = absurd (omega arith)
  left_side_back (a ∷ l) [] len hl hr = absurd (omega arith)
  left_side_back (a ∷ l) (b ∷ r) len (ha, hl) (hb, hr) =
      let (wa, na, ia, ba) = one a ha in
      let (wb, nb, ib, bb) = one b hb in
      let rest = left_side_back l r (omega arith) hl hr in
      rw (left_out (widen 32 a) (widen 32 b) wa wb, ib, ba, bb, rest) refl

  right_side_back :
      (l r : List ℕ)
      → length l ≡ length r
      → All (Fits 32 bps) l
      → All (Fits 32 bps) r
      → decorrelate_right_side64 (sides 64 (upcast l) (upcast r)) (upcast r) bps ≡ exactly l r
  unfolding decorrelate_right_side64 sides
  right_side_back [] [] len hl hr = refl
  right_side_back [] (b ∷ r) len hl hr = absurd (omega arith)
  right_side_back (a ∷ l) [] len hl hr = absurd (omega arith)
  right_side_back (a ∷ l) (b ∷ r) len (ha, hl) (hb, hr) =
      let (wa, na, ia, ba) = one a ha in
      let (wb, nb, ib, bb) = one b hb in
      let rest = right_side_back l r (omega arith) hl hr in
      rw (right_out (widen 32 a) (widen 32 b) wa wb, ia, ba, bb, rest) refl

  mid_side_back :
      (l r : List ℕ)
      → length l ≡ length r
      → All (Fits 32 bps) l
      → All (Fits 32 bps) r
      → decorrelate_mid_side64 (mids 64 (upcast l) (upcast r)) (sides 64 (upcast l) (upcast r)) bps
        ≡ exactly l r
  unfolding decorrelate_mid_side64 sides mids
  mid_side_back [] [] len hl hr = refl
  mid_side_back [] (b ∷ r) len hl hr = absurd (omega arith)
  mid_side_back (a ∷ l) [] len hl hr = absurd (omega arith)
  mid_side_back (a ∷ l) (b ∷ r) len (ha, hl) (hb, hr) =
      let (wa, na, ia, ba) = one a ha in
      let (wb, nb, ib, bb) = one b hb in
      let rest = mid_side_back l r (omega arith) hl hr in
      rw
        (
          mid_left (widen 32 a) (widen 32 b) na nb,
          mid_right (widen 32 a) (widen 32 b) na nb,
          ia,
          ib,
          ba,
          bb,
          rest,
        )
        refl

  undone64 :
      (m : Mode) (l r : List ℕ)
      → length l ≡ length r
      → All (Fits 32 bps) l
      → All (Fits 32 bps) r
      → undo_stereo64
          (code_of m)
          bps
          (first m 64 (upcast l) (upcast r), second m 64 (upcast l) (upcast r))
        ≡ pure (l, r)
  unfolding undo_stereo64
  undone64 left_side l r len hl hr = ap derived (left_side_back l r len hl hr)
  undone64 right_side l r len hl hr = ap derived (right_side_back l r len hl hr)
  undone64 mid_side l r len hl hr = ap derived (mid_side_back l r len hl hr)

pub length-upcast : (s : List ℕ) → length (upcast s) ≡ length s
length-upcast [] = refl
length-upcast (x ∷ s) = ap suc (length-upcast s)

-- For a block of two channels that fit in `bps` bits, 25 to 32, `decodeStereoDecorrelated` gives the
-- channels back from the two subframes that `encodeStereo64` writes in each of the three modes, and
-- reads exactly the bits planned, if the plans describe what they write.
pub decode_stereo_decorrelated-write_pair64 :
    (ceiling bps precision : ℕ) (m : Mode) (l r : List ℕ) (c : Candidates)
    → 25 ≤ bps
    → bps ≤ 32
    → 1 ≤ length l
    → length l ≡ length r
    → All (Fits 32 bps) l
    → All (Fits 32 bps) r
    → IsWritten 64 (first_width m bps) precision (first m 64 (upcast l) (upcast r)) (first_plan m c)
    → IsWritten 64
        (second_width m bps)
        precision
        (second m 64 (upcast l) (upcast r))
        (second_plan m c)
    → RoundTrip
        (bits_of (first_width m bps) precision (length l) (first_plan m c)
          + bits_of (second_width m bps) precision (length l) (second_plan m c))
        (write_pair 64 bps precision (code_of m) (upcast l) (upcast r) c)
        (decode_stereo_decorrelated ceiling (code_of m) (length l) bps)
        (l, r)
decode_stereo_decorrelated-write_pair64 ceiling bps precision m l r c ge le some_samples len hl hr
      hf hs =
    let el = length-upcast l in
    let er = length-upcast r in
    let p =
      pair_back 64 ceiling bps precision m (upcast l) (upcast r) l r c
        (undo_stereo64 (code_of m) bps) (inr refl) (omega arith) (omega arith) (omega arith)
        (omega arith) (undone64 bps (omega arith) le m l r len hl hr) hf hs in
    rw (wide_route m ceiling (length l) bps (le→leb 25 bps ge)) (rw el at p)

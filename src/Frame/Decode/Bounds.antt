-- ===== src/Frame/Decode/Bounds.antt =====
-- What undoing a stereo mode lets through fits the depth.
use go_flac.Prelude.{
  ℕ, ◌+◌, ◌-◌, ◌%◌, ◌^◌, ◌≤◌, ◌<◌, ◌≡◌, refl, ◌⊎◌, inl, List, [], ◌∷◌, All, Bool, true, false, not,
  ◌==◌, ◌&&◌, arith,
}
use go_flac.Prelude.Pow.{pow-pos, pow_mono}
use native.Mathlib.Nat.{mod-lt}
use go_flac.Errors.{subframe_out_of_range}
use go_flac.Signed.{Fits, add_w, sub_w, sar}
use go_flac.Bitio.Reader.{M, pure, fail}
use go_flac.Bitio.Reader.Every.{Every, Every-test, Every-fail}
use go_flac.Rice.Samples.{IsWord}
use go_flac.I32.{add32, sub32, add, sub, mid_side_decode, zip_with, left_of, right_of, half32}
use go_flac.Frame.Decorrelate.{decorrelate_left_side, decorrelate_right_side, decorrelate_mid_side}
use go_flac.Frame.Decode.Stereo64.{
  Derived, limit, left64, right64, decorrelate_left_side64, decorrelate_right_side64,
  decorrelate_mid_side64,
}
use go_flac.Frame.Subframe.{in_range, out_of_range}
use go_flac.Frame.Subframe.Range.{in_range_iff}
use go_flac.Frame.Decode.{Pair, in_bounds, undo_stereo, derived, undo_stereo64}

-- Narrowing a sample of up to 32 bits.
pub narrowed : (bps x : ℕ) → 1 ≤ bps → bps ≤ 32 → Fits 64 bps x → Fits 32 bps (x % 2 ^ 32)
narrowed bps x pos le (word, f) =
    let half : 2 ^ (bps - 1) ≤ 2 ^ 31 = pow_mono (bps - 1) 31 (omega arith) in ground arith

within :
    (bps x : ℕ)
    → 1 ≤ bps
    → bps ≤ 32
    → x < 2 ^ 64
    → not (out_of_range (limit bps) x) ≡ true
    → Fits 64 bps x
within bps x pos le word e =
    let half : 2 ^ (bps - 1) ≤ 2 ^ 31 = pow_mono (bps - 1) 31 (omega arith) in
    let one = pow-pos (bps - 1) in go (2 ^ (bps - 1)) one half e
  where
    go :
        (lim : ℕ)
        → 0 < lim
        → lim ≤ 2 ^ 31
        → not (out_of_range lim x) ≡ true
        → (x < 2 ^ 64) × ((x < lim) ⊎ (2 ^ 64 ≤ x + lim))
    go lim one le e = ground arith

and_both : (a b : Bool) → a && b ≡ true → (a ≡ true) × (b ≡ true)
and_both true true e = (refl, refl)
and_both true false e = absurd (ground arith)
and_both false b e = absurd (ground arith)

half_word : (v : ℕ) → sar 64 (v % 2 ^ 64) 1 < 2 ^ 64
unfolding sar
half_word v = ground arith

half_word32 : (v : ℕ) → half32 (v % 2 ^ 32) < 2 ^ 32
half_word32 v = ground arith

zip_with-Words :
    (f : ℕ → ℕ → ℕ)
    → ((x y : ℕ) → f x y < 2 ^ 32)
    → (a b : List ℕ) → All (IsWord 32) (zip_with f a b)
zip_with-Words f h [] b = tt
zip_with-Words f h (x ∷ a) [] = tt
zip_with-Words f h (x ∷ a) (y ∷ b) = (h x y, zip_with-Words f h a b)

add-Words : (a b : List ℕ) → All (IsWord 32) (add a b)
unfolding add
add-Words = zip_with-Words add32 (λ x y. mod-lt _ (pow-pos 32))

sub-Words : (a b : List ℕ) → All (IsWord 32) (sub a b)
unfolding sub
sub-Words = zip_with-Words sub32 (λ x y. mod-lt _ (pow-pos 32))

mid_side_decode-Words :
    (a b : List ℕ)
    → All (IsWord 32) (mid_side_decode a b).0 × All (IsWord 32) (mid_side_decode a b).1
unfolding mid_side_decode
mid_side_decode-Words a b = (
  zip_with-Words left_of (λ x y. half_word32 _) a b,
  zip_with-Words right_of (λ x y. half_word32 _) a b,
)

-- Both channels in `bps` bits.
abbrev pub Both : ℕ → Pair → Type 0
Both bps p = All (Fits 32 bps) p.0 × All (Fits 32 bps) p.1

module _ (bps : ℕ) (pos : 1 ≤ bps) (le : bps ≤ 32) where
  abbrev Good : Derived → Type 0
  Good d = All (Fits 32 bps) d.left × All (Fits 32 bps) d.right

  left-Good :
      (l s : List ℕ)
      → All (Fits 64 bps) l
      → (decorrelate_left_side64 l s bps).fits ≡ true
      → Good (decorrelate_left_side64 l s bps)
  unfolding decorrelate_left_side64
  left-Good (l ∷ ls) (s ∷ ss) (hl, h) e =
      let (here, there) = and_both (not (out_of_range (limit bps) (sub_w 64 l s))) _ e in
      let rest = left-Good ls ss h there in
      let fits = within bps (sub_w 64 l s) pos le (mod-lt _ (pow-pos 64)) here in
      ((narrowed bps l pos le hl, rest.0), (narrowed bps (sub_w 64 l s) pos le fits, rest.1))
  left-Good [] s h e = (tt, tt)
  left-Good (l ∷ ls) [] h e = (tt, tt)

  right-Good :
      (s r : List ℕ)
      → All (Fits 64 bps) r
      → (decorrelate_right_side64 s r bps).fits ≡ true
      → Good (decorrelate_right_side64 s r bps)
  unfolding decorrelate_right_side64
  right-Good (s ∷ ss) (r ∷ rs) (hr, h) e =
      let (here, there) = and_both (not (out_of_range (limit bps) (add_w 64 r s))) _ e in
      let rest = right-Good ss rs h there in
      let fits = within bps (add_w 64 r s) pos le (mod-lt _ (pow-pos 64)) here in
      ((narrowed bps (add_w 64 r s) pos le fits, rest.0), (narrowed bps r pos le hr, rest.1))
  right-Good [] r h e = (tt, tt)
  right-Good (s ∷ ss) [] h e = (tt, tt)

  mid-Good :
      (m s : List ℕ)
      → (decorrelate_mid_side64 m s bps).fits ≡ true
      → Good (decorrelate_mid_side64 m s bps)
  unfolding decorrelate_mid_side64
  mid-Good (m ∷ ms) (s ∷ ss) e =
      let (here, there) =
        and_both
          (not (out_of_range (limit bps) (left64 m s))
            && not (out_of_range (limit bps) (right64 m s)))
          _ e in
      let (good_l, good_r) = and_both (not (out_of_range (limit bps) (left64 m s))) _ here in
      let rest = mid-Good ms ss there in
      let fits_l = within bps (left64 m s) pos le (half_word _) good_l in
      let fits_r = within bps (right64 m s) pos le (half_word _) good_r in
      (
        (narrowed bps (left64 m s) pos le fits_l, rest.0),
        (narrowed bps (right64 m s) pos le fits_r, rest.1),
      )
  mid-Good [] s e = (tt, tt)
  mid-Good (m ∷ ms) [] e = (tt, tt)

  derived-Both : (d : Derived) → (d.fits ≡ true → Good d) → Every (Both bps) (derived d)
  derived-Both d h =
      Every-test (Both bps) d.fits (pure (d.left, d.right)) (fail subframe_out_of_range)
        (λ e b. h e) (λ e. Every-fail (Both bps) subframe_out_of_range)

  pub undo64-Both :
      (code : ℕ) (p : Pair)
      → (code ≡ 8 → All (Fits 64 bps) p.0)
      → (code ≡ 9 → All (Fits 64 bps) p.1)
      → Every (Both bps) (undo_stereo64 code bps p)
  unfolding undo_stereo64
  undo64-Both code (a, c) h8 h9 =
      Every-test (Both bps) (code == 8) (derived (decorrelate_left_side64 a c bps)) _
        (λ e. derived-Both _ (left-Good a c (h8 (ground arith))))
        (λ e.
          Every-test (Both bps) (code == 9) (derived (decorrelate_right_side64 a c bps)) _
            (λ e'. derived-Both _ (right-Good a c (h9 (ground arith))))
            (λ e'. derived-Both _ (mid-Good a c)))

  tested : (s : List ℕ) → All (IsWord 32) s → in_range 32 s bps ≡ true → All (Fits 32 bps) s
  tested s words e = (in_range_iff 32 bps s (inl refl) pos le (omega arith) words).0 e

  pub undo-Both :
      (code : ℕ) (p : Pair)
      → (code ≡ 8 → All (Fits 32 bps) p.0)
      → (code ≡ 9 → All (Fits 32 bps) p.1)
      → Every (Both bps) (undo_stereo code bps p)
  unfolding undo_stereo decorrelate_left_side decorrelate_right_side decorrelate_mid_side
  undo-Both code (a, c) h8 h9 =
      Every-test (Both bps) (code == 8) (bounds (in_range 32 (sub a c) bps) (a, sub a c)) _
        (λ e. bounds_done _ _ (λ good. (h8 (ground arith), tested (sub a c) (sub-Words a c) good)))
        (λ e.
          Every-test (Both bps) (code == 9) (bounds (in_range 32 (add c a) bps) (add c a, c)) _
            (λ e'.
              bounds_done _ _ (λ good. (tested (add c a) (add-Words c a) good, h9 (ground arith))))
            (λ e'. bounds_done _ _ (λ good.
              let (l, r) = and_both (in_range 32 (mid_side_decode a c).0 bps) _ good in
              let words = mid_side_decode-Words a c in
              (
                tested (mid_side_decode a c).0 words.0 l,
                tested (mid_side_decode a c).1 words.1 r,
              ))))
    where
      bounds : Bool → Pair → M Pair
      bounds fits p = in_bounds fits p

      bounds_done :
          (fits : Bool) (p : Pair)
          → (fits ≡ true → Both bps p)
          → Every (Both bps) (in_bounds fits p)
      bounds_done fits p h =
          Every-test (Both bps) fits (pure p) (fail subframe_out_of_range) (λ e b. h e)
            (λ e. Every-fail (Both bps) subframe_out_of_range)

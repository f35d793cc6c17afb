-- ===== src/Frame/Subframe/Range.antt =====
-- `inRange` tests that the width holds every sample.
use go_flac.Prelude.{
  ℕ, ◌+◌, ◌-◌, ◌%◌, ◌^◌, ◌≤◌, ◌<◌, ◌≡◌, ◌↔◌, refl, ◌⊎◌, inl, inr, List, [], ◌∷◌, All, map-All, true,
  false, not, ◌&&◌, leb, if◌then◌else◌, Bool, Bool-cases, arith,
}
use go_flac.Prelude.Pow.{pow-pos, pow-lt}
use go_flac.Signed.{less, Fits}
use go_flac.I32.Range.{Bounds, min_max_loop, min_max}
use go_flac.Rice.Fold.{IsWidth}
use go_flac.Lpc.Inverse.{IsWord}
use go_flac.Frame.Subframe.{out_of_range, all_in_range, in_range}

-- Within `lim` on either side of zero.
abbrev Around : ℕ → ℕ → ℕ → Type 0
Around w lim x = (x < lim) ⊎ (2 ^ w ≤ x + lim)

abbrev fits32 : ℕ → ℕ → ℕ → Bool
fits32 lim lo hi = not (less 32 lo (2 ^ 32 - lim)) && less 32 hi lim

-- One number against the limits.
bounds_one :
    (lim lo hi : ℕ)
    → 1 ≤ lim
    → lim < 2 ^ 31
    → IsWord 32 lo
    → IsWord 32 hi
    → less 32 hi lo ≡ false
    → (fits32 lim lo hi ≡ true) ↔ (Around 32 lim lo × Around 32 lim hi)
bounds_one lim lo hi pos lt hl hh ord = (λ e. ground arith, λ (p, q). ground arith)

-- The signed order, in which the patterns from 2 ^ 31 on come first.
abbrev Below : ℕ → ℕ → Type 0
Below a b = (a + 2 ^ 31) % 2 ^ 32 ≤ (b + 2 ^ 31) % 2 ^ 32

abbrev Between : Bounds → ℕ → Type 0
Between b x = Below b.0 x × Below x b.1

-- The bounds are among the numbers, and every number is between them.
record IsBounds (P : ℕ → Type 0) (lo hi : ℕ) (rs : List ℕ) (b : Bounds) : Type 0 where
  lower : P b.0
  upper : P b.1
  outside : Between b lo × Between b hi
  between : All (Between b) rs

step :
    (P : ℕ → Type 0) (lo hi r : ℕ)
    → P lo
    → P hi
    → P r
    → Below lo hi
    → P (if less 32 r lo then r else lo)
      × P (if less 32 hi r then r else hi)
      × Below (if less 32 r lo then r else lo) (if less 32 hi r then r else hi)
      × ((b : Bounds)
          → Between b (if less 32 r lo then r else lo)
          → Between b (if less 32 hi r then r else hi)
          → Between b lo × Between b hi × Between b r)
step P lo hi r plo phi pr ord = elim (Bool-cases (less 32 r lo)) [
  | inl low ↦
      let e : less 32 hi r ≡ false = ground arith in
      rw (low, e) (pr, phi, ground arith, λ b h h'. ground arith)
  | inr low ↦ elim (Bool-cases (less 32 hi r)) [
    | inl high ↦ rw (low, high) (plo, pr, ground arith, λ b h h'. ground arith)
    | inr high ↦ rw (low, high) (plo, phi, ord, λ b h h'. ground arith)
  ]
]

min_max_loop-IsBounds :
    (P : ℕ → Type 0) (lo hi : ℕ) (rs : List ℕ)
    → P lo
    → P hi
    → Below lo hi
    → All P rs
    → IsBounds P lo hi rs (min_max_loop lo hi rs)
unfolding min_max_loop
min_max_loop-IsBounds P lo hi [] plo phi ord h = record {
  lower = plo;
  upper = phi;
  outside = ((omega arith, ord), (ord, omega arith));
  between = tt;
}
min_max_loop-IsBounds P lo hi (r ∷ rs) plo phi ord (pr, h) =
    let (pl, ph, ord', within) = step P lo hi r plo phi pr ord in
    let t =
      min_max_loop-IsBounds P (if less 32 r lo then r else lo) (if less 32 hi r then r else hi) rs
        pl ph ord' h in
    let (below, above, here) = within _ t.outside.0 t.outside.1 in
    record {
      lower = t.lower;
      upper = t.upper;
      outside = (below, above);
      between = (here, t.between);
    }

squeezed :
    (lim lo hi x : ℕ)
    → 1 ≤ lim
    → lim < 2 ^ 31
    → IsWord 32 x
    → IsWord 32 lo
    → IsWord 32 hi
    → Around 32 lim lo
    → Around 32 lim hi
    → Below lo x
    → Below x hi
    → Around 32 lim x
squeezed lim lo hi x pos lt hx hl hh al ah below above = ground arith

zipped :
    {P Q R : ℕ → Type 0} (f : (x : ℕ) → P x → Q x → R x) (xs : List ℕ)
    → All P xs
    → All Q xs
    → All R xs
zipped f [] h k = tt
zipped f (x ∷ xs) (hx, h) (kx, k) = (f x hx kx, zipped f xs h k)

-- `min_max` on a list that is not empty.
min_max_iff :
    (lim r : ℕ) (rs : List ℕ)
    → 1 ≤ lim
    → lim < 2 ^ 31
    → All (IsWord 32) (r ∷ rs)
    → (fits32 lim (min_max (r ∷ rs)).0 (min_max (r ∷ rs)).1 ≡ true) ↔ All (Around 32 lim) (r ∷ rs)
unfolding min_max
min_max_iff lim r rs pos lt (hr, h) = (forth, back)
  where
    words : IsBounds (IsWord 32) r r rs (min_max_loop r r rs)
    words = min_max_loop-IsBounds (IsWord 32) r r rs hr hr (omega arith) h

    ordered : less 32 (min_max_loop r r rs).1 (min_max_loop r r rs).0 ≡ false
    ordered = let (o, o') = words.outside in ground arith

    back :
        All (Around 32 lim) (r ∷ rs)
        → fits32 lim (min_max_loop r r rs).0 (min_max_loop r r rs).1 ≡ true
    back (ar, a) =
        let t = min_max_loop-IsBounds (Around 32 lim) r r rs ar ar (omega arith) a in
        (bounds_one lim _ _ pos lt words.lower words.upper ordered).1 (t.lower, t.upper)

    forth :
        fits32 lim (min_max_loop r r rs).0 (min_max_loop r r rs).1 ≡ true
        → All (Around 32 lim) (r ∷ rs)
    forth e =
        let (al, ah) = (bounds_one lim _ _ pos lt words.lower words.upper ordered).0 e in
        let b : Bounds = min_max_loop r r rs in
        let one : (x : ℕ) → IsWord 32 x → Between b x → Around 32 lim x =
          λ x hx h. squeezed lim b.0 b.1 x pos lt hx words.lower words.upper al ah h.0 h.1 in
        (one r hr words.outside.0, zipped one rs h words.between)

all_in_range_iff :
    (lim : ℕ) (xs : List ℕ)
    → 1 ≤ lim
    → lim < 2 ^ 63
    → All (IsWord 64) xs
    → (all_in_range lim xs ≡ true) ↔ All (Around 64 lim) xs
all_in_range_iff lim [] pos lt h = (λ e. tt, λ a. refl)
all_in_range_iff lim (x ∷ xs) pos lt (hx, h) =
    let rest = all_in_range_iff lim xs pos lt h in
    elim (Bool-cases (out_of_range lim x)) [
      | inl out ↦ rw out (λ e. absurd (ground arith), λ (ax, a). absurd (ground arith))
      | inr within ↦
          let ax : Around 64 lim x = ground arith in
          rw within (λ e. (ax, rest.0 e), λ (bx, a). rest.1 a)
    ]

min_max-Around :
    (lim : ℕ) (s : List ℕ)
    → 1 ≤ lim
    → lim < 2 ^ 31
    → All (IsWord 32) s
    → (fits32 lim (min_max s).0 (min_max s).1 ≡ true) ↔ All (Around 32 lim) s
unfolding min_max
min_max-Around lim [] pos lt h =
    let zero_fits : Around 32 lim 0 = inl pos in
    (
      λ e. tt,
      λ a. (bounds_one lim 0 0 pos lt (omega arith) (omega arith) refl).1 (zero_fits, zero_fits),
    )
min_max-Around lim (r ∷ rs) pos lt h = min_max_iff lim r rs pos lt h

-- With the words known, the limits are what is left of `Fits`.
range-Fits :
    (w bits : ℕ) (s : List ℕ) (b : Bool)
    → All (IsWord w) s
    → ((b ≡ true) ↔ All (Around w (2 ^ (bits - 1))) s)
    → (b ≡ true) ↔ All (Fits w bits) s
range-Fits w bits s b h (forth, back) = (
  λ e. zipped (λ x word a. (word, a)) s h (forth e),
  λ a. back (map-All (λ x (f : Fits w bits x). f.1) s a),
)

-- `inRange` accepts exactly the slices of which every sample fits in `bits` bits, for `int32` samples
-- and from 1 to 32 bits, and for `int64` samples and from 1 to 63 bits.
pub in_range_iff :
    (w bits : ℕ) (s : List ℕ)
    → IsWidth w
    → 1 ≤ bits
    → bits ≤ w
    → bits < 64
    → All (IsWord w) s
    → (in_range w s bits ≡ true) ↔ All (Fits w bits) s
unfolding in_range
in_range_iff w bits s (inl e) pos le lt h =
    let words : All (IsWord 32) s = rw e at h in
    elim (Bool-cases (leb 32 bits)) [
      | inl wide ↦
          let e' : bits ≡ 32 = ground arith in
          rw (e, wide, e') (λ x. map-All (λ x lt. (lt, ground arith)) s words, λ a. refl)
      | inr narrow ↦
          let small = pow-lt (bits - 1) 31 (ground arith) in
          rw (e, narrow)
            (range-Fits 32 bits s _ words
              (min_max-Around (2 ^ (bits - 1)) s (pow-pos (bits - 1)) small words))
    ]
in_range_iff w bits s (inr e) pos le lt h =
    let words : All (IsWord 64) s = rw e at h in
    let small = pow-lt (bits - 1) 63 (omega arith) in
    rw e (
      range-Fits 64 bits s _ words
        (all_in_range_iff (2 ^ (bits - 1)) s (pow-pos (bits - 1)) small words))

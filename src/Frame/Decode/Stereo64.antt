-- ===== src/Frame/Decode/Stereo64.antt =====
-- internal/frame/decorrelate.go: the stereo modes undone on the wide path. A computed sample is tested
-- in `int64` against the depth before it is narrowed to `int32`.
use go_flac.Prelude.{ℕ, ◌-◌, ◌%◌, ◌^◌, List, [], ◌∷◌, Bool, true, not, ◌&&◌, bit_and, bit_or}
use go_flac.Signed.{add_w, sub_w, shl_w, sar}
use go_flac.Frame.Subframe.{out_of_range}

pub record Derived : Type 0 where
  pub fits : Bool
  pub left : List ℕ
  pub right : List ℕ

abbrev pub both_narrow : Bool → ℕ → ℕ → Derived → Derived
both_narrow good l r rest = record {
  fits = good && rest.fits;
  left = l % 2 ^ 32 ∷ rest.left;
  right = r % 2 ^ 32 ∷ rest.right;
}

abbrev pub nothing_derived : Derived
nothing_derived = record { fits = true; left = []; right = [] }

abbrev pub limit : ℕ → ℕ
limit bps = 2 ^ (bps - 1)

unfoldable pub decorrelate_left_side64 : List ℕ → List ℕ → ℕ → Derived
decorrelate_left_side64 (l ∷ left) (s ∷ side) bps =
    let r = sub_w 64 l s in
    both_narrow (not (out_of_range (limit bps) r)) l r (decorrelate_left_side64 left side bps)
decorrelate_left_side64 _ _ bps = nothing_derived

unfoldable pub decorrelate_right_side64 : List ℕ → List ℕ → ℕ → Derived
decorrelate_right_side64 (s ∷ side) (r ∷ right) bps =
    let l = add_w 64 r s in
    both_narrow (not (out_of_range (limit bps) l)) l r (decorrelate_right_side64 side right bps)
decorrelate_right_side64 _ _ bps = nothing_derived

-- `(mid << 1) | (side & 1)`
abbrev pub sum64 : ℕ → ℕ → ℕ
sum64 mid side = bit_or (shl_w 64 mid 1) (bit_and side 1)

abbrev pub left64 : ℕ → ℕ → ℕ
left64 mid side = sar 64 (add_w 64 (sum64 mid side) side) 1

abbrev pub right64 : ℕ → ℕ → ℕ
right64 mid side = sar 64 (sub_w 64 (sum64 mid side) side) 1

unfoldable pub decorrelate_mid_side64 : List ℕ → List ℕ → ℕ → Derived
unfolding sar
decorrelate_mid_side64 (m ∷ mid) (s ∷ side) bps =
    let l = left64 m s in
    let r = right64 m s in
    both_narrow (not (out_of_range (limit bps) l) && not (out_of_range (limit bps) r)) l r
      (decorrelate_mid_side64 mid side bps)
decorrelate_mid_side64 _ _ bps = nothing_derived

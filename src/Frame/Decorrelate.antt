-- ===== src/Frame/Decorrelate.antt =====
-- internal/frame/decorrelate.go: the stereo modes undone, on `int32` channels.
use go_flac.Prelude.{ℕ, ◌^◌, ◌<◌, ◌≡◌, refl, ap, List, [], ◌∷◌, All, length, arith}
use go_flac.I32.{add32, sub32, add, sub, mid_side_encode, mid_side_decode}
use go_flac.I32.Stereo.{IsNarrow, mid_side_decode-mid_side_encode}

-- Left and right, from left and side.
unfoldable pub decorrelate_left_side : List ℕ → List ℕ → List ℕ × List ℕ
decorrelate_left_side left side = (left, sub left side)

unfoldable pub decorrelate_right_side : List ℕ → List ℕ → List ℕ × List ℕ
decorrelate_right_side side right = (add right side, right)

unfoldable pub decorrelate_mid_side : List ℕ → List ℕ → List ℕ × List ℕ
decorrelate_mid_side mid side = mid_side_decode mid side

abbrev pub IsWord32 : ℕ → Type 0
IsWord32 x = x < 2 ^ 32

sub-sub : (ls rs : List ℕ) → length ls ≡ length rs → All IsWord32 rs → sub ls (sub ls rs) ≡ rs
unfolding sub
sub-sub [] [] len h = refl
sub-sub [] (r ∷ rs) len h = absurd (omega arith)
sub-sub (l ∷ ls) [] len h = absurd (omega arith)
sub-sub (l ∷ ls) (r ∷ rs) len (hr, h) =
    let e : sub32 l (sub32 l r) ≡ r = omega arith in rw (e, sub-sub ls rs (omega arith) h) refl

add-sub :
    (ls rs : List ℕ)
    → length ls ≡ length rs
    → All IsWord32 ls
    → All IsWord32 rs
    → add rs (sub ls rs) ≡ ls
unfolding sub add
add-sub [] [] len h h' = refl
add-sub [] (r ∷ rs) len h h' = absurd (omega arith)
add-sub (l ∷ ls) [] len h h' = absurd (omega arith)
add-sub (l ∷ ls) (r ∷ rs) len (hl, h) (hr, h') =
    let e : add32 r (sub32 l r) ≡ l = omega arith in rw (e, add-sub ls rs (omega arith) h h') refl

-- Two channels of 32-bit samples and of equal length come back from their difference and either
-- one of them.
pub decorrelate_side-sub :
    (left right : List ℕ)
    → length left ≡ length right
    → All IsWord32 left
    → All IsWord32 right
    → (decorrelate_left_side left (sub left right) ≡ (left, right))
      × (decorrelate_right_side (sub left right) right ≡ (left, right))
unfolding decorrelate_left_side decorrelate_right_side
decorrelate_side-sub left right len hl hr = (
  ap (λ (t : List ℕ). (left, t)) (sub-sub left right len hr),
  ap (λ (t : List ℕ). (t, right)) (add-sub left right len hl hr),
)

-- Two channels of equal length come back from the mid and side that `MidSideEncode` makes, if every
-- sample is from -2 ^ 30 to 2 ^ 30 - 1.
pub decorrelate_mid_side-mid_side_encode :
    (left right : List ℕ)
    → length left ≡ length right
    → All IsNarrow left
    → All IsNarrow right
    → decorrelate_mid_side (mid_side_encode left right).0 (mid_side_encode left right).1
      ≡ (left, right)
unfolding decorrelate_mid_side
decorrelate_mid_side-mid_side_encode left right len hl hr =
    mid_side_decode-mid_side_encode left right len hl hr

-- ===== src/Frame/Subframe/Restored.antt =====
-- Restoring a subframe, by every route: the warm-up stays, and the rest are patterns of the width.
use go_flac.Prelude.{
  ℕ, zero, suc, ◌-◌, ◌≤◌, ◌≡◌, refl, ap, ◌∙◌, inl, inr, List, [], ◌∷◌, ◌++◌, All, length, take,
  take-append, leb, ltb, ◌==◌, ◌&&◌, ◌||◌, Bool-cases, arith, if◌then◌else◌, min,
}
use go_flac.Prelude.Pow.{pow-pos}
use native.Mathlib.Nat.{mod-lt}
use go_flac.Rice.Samples.{IsWord}
use go_flac.I32.Lpc.{restore_loop, lpc_restore}
use go_flac.I32.Narrow.{
  max_lpc_shift_narrow, max_lpc_restore_order, restore_loop_narrow, lpc_restore_clamped,
  lpc_restore_go_narrow, lpc_restore_narrow, lpc_restore_narrow_safe,
}
use go_flac.Lpc.{restore_with, restore_fixed, restore_lpc}
use go_flac.Lpc.Dispatch.{diff_coeffs, restore_fixed32, restore_lpc32}
use go_flac.Rice.Fold.{IsWidth}
use go_flac.Frame.Subframe.{restore_fixed_by, restore_lpc_by}
use go_flac.Frame.Subframe.Prefix.{Extends, restore-Extends}

restore_with-Words :
    (w : ℕ) (p : List ℕ → ℕ) (rs past : List ℕ) → All (IsWord w) (restore_with w p past rs)
unfolding restore_with
restore_with-Words w p [] past = tt
restore_with-Words w p (r ∷ rs) past = (mod-lt _ (pow-pos w), restore_with-Words w p rs _)

restore_loop-Words :
    (coeffs : List ℕ) (shift : ℕ) (rs past : List ℕ)
    → All (IsWord 32) (restore_loop coeffs shift past rs)
unfolding restore_loop
restore_loop-Words coeffs shift [] past = tt
restore_loop-Words coeffs shift (r ∷ rs) past =
    (mod-lt _ (pow-pos 32), restore_loop-Words coeffs shift rs _)

narrow-Words :
    (coeffs : List ℕ) (shift : ℕ) (rs past : List ℕ)
    → All (IsWord 32) (restore_loop_narrow coeffs shift past rs)
unfolding restore_loop_narrow
narrow-Words coeffs shift [] past = tt
narrow-Words coeffs shift (r ∷ rs) past = (mod-lt _ (pow-pos 32), narrow-Words coeffs shift rs _)

-- What is taken from the front of the buffer is the warm-up.
kept :
    (w n : ℕ) (xs ys behind : List ℕ)
    → length xs ≡ n
    → All (IsWord w) behind
    → Extends w xs (take n (xs ++ ys) ++ behind)
kept w n xs ys behind len words =
    let e : take n (xs ++ ys) ≡ xs = rw len at (take-append xs ys) in
    (behind, ap (λ (t : List ℕ). t ++ behind) e, words)

clamped-Extends :
    (coeffs xs ys : List ℕ) (shift : ℕ)
    → length xs ≡ length coeffs
    → All (IsWord 32) ys
    → Extends 32 xs (lpc_restore_clamped (xs ++ ys) coeffs shift)
unfolding lpc_restore_clamped lpc_restore
clamped-Extends coeffs xs ys shift len words =
    elim (Bool-cases (length coeffs == 0 || leb (length (xs ++ ys)) (length coeffs))) [
      | inl none_left ↦ rw none_left (ys, refl, words)
      | inr more ↦ rw more (kept 32 (length coeffs) xs ys _ len (restore_loop-Words coeffs _ _ _))
    ]

go_narrow-Extends :
    (coeffs xs ys : List ℕ) (shift : ℕ)
    → length xs ≡ length coeffs
    → All (IsWord 32) ys
    → Extends 32 xs (lpc_restore_go_narrow (xs ++ ys) coeffs shift)
unfolding lpc_restore_go_narrow
go_narrow-Extends coeffs xs ys shift len words =
    elim (Bool-cases (ltb (length coeffs) 1 || ltb max_lpc_restore_order (length coeffs))) [
      | inl out ↦ rw out (clamped-Extends coeffs xs ys shift len words)
      | inr within ↦ elim (Bool-cases (leb (length (xs ++ ys)) (length coeffs))) [
        | inl short ↦ rw (within, short) (ys, refl, words)
        | inr more ↦
            rw (within, more) (kept 32 (length coeffs) xs ys _ len (narrow-Words coeffs _ _ _))
      ]
    ]

narrow_route :
    (ceiling : ℕ) (dst coeffs : List ℕ) (shift : ℕ)
    → lpc_restore_narrow ceiling dst coeffs shift ≡ (
        if length coeffs == 0 || leb (length dst) (length coeffs)
        then dst
        else if leb (length coeffs) ceiling
        then lpc_restore_go_narrow dst coeffs (min shift max_lpc_shift_narrow)
        else lpc_restore_clamped dst coeffs shift)
unfolding lpc_restore_narrow
narrow_route ceiling dst coeffs shift = refl

narrow-Extends :
    (ceiling : ℕ) (coeffs xs ys : List ℕ) (shift : ℕ)
    → length xs ≡ length coeffs
    → All (IsWord 32) ys
    → Extends 32 xs (lpc_restore_narrow ceiling (xs ++ ys) coeffs shift)
narrow-Extends ceiling coeffs xs ys shift len words =
    rw (narrow_route ceiling (xs ++ ys) coeffs shift)
      (elim (Bool-cases (length coeffs == 0 || leb (length (xs ++ ys)) (length coeffs))) [
        | inl none_left ↦ rw none_left (ys, refl, words)
        | inr more ↦ elim (Bool-cases (leb (length coeffs) ceiling)) [
          | inl low ↦
              rw (more, low)
                (go_narrow-Extends coeffs xs ys (min shift max_lpc_shift_narrow) len words)
          | inr high ↦ rw (more, high) (clamped-Extends coeffs xs ys shift len words)
        ]
      ])

pub restore_lpc_by-Extends :
    (w ceiling : ℕ) (xs ys coeffs : List ℕ) (shift bps : ℕ)
    → IsWidth w
    → length xs ≡ length coeffs
    → All (IsWord w) ys
    → Extends w xs (restore_lpc_by w ceiling (xs ++ ys) coeffs shift bps)
unfolding restore_lpc_by restore_lpc32 restore_lpc
restore_lpc_by-Extends w ceiling xs ys coeffs shift bps (inl e) len words =
    let words32 : All (IsWord 32) ys = rw e at words in
    rw e (elim (Bool-cases (ltb 0 bps && lpc_restore_narrow_safe coeffs bps shift)) [
      | inl safe ↦ rw safe (narrow-Extends ceiling coeffs xs ys shift len words32)
      | inr wide ↦ rw wide (clamped-Extends coeffs xs ys shift len words32)
    ])
restore_lpc_by-Extends w ceiling xs ys coeffs shift bps (inr e) len words =
    rw e (kept 64 (length coeffs) xs ys _ len (restore_with-Words 64 _ _ _))

coeffs_length : (order : ℕ) → 1 ≤ order → order ≤ 4 → order ≡ length (diff_coeffs order) - 1
coeffs_length zero pos le = absurd (omega arith)
coeffs_length (suc zero) pos le = refl
coeffs_length (suc (suc zero)) pos le = refl
coeffs_length (suc (suc (suc zero))) pos le = refl
coeffs_length (suc (suc (suc (suc n)))) pos le = omega arith

coeffs_two : (order : ℕ) → 1 ≤ order → order ≤ 4 → 2 ≤ length (diff_coeffs order)
coeffs_two order pos le = omega (arith, coeffs_length order pos le)

pub restore_fixed_by-Extends :
    (w order : ℕ) (xs ys : List ℕ)
    → IsWidth w
    → order ≤ 4
    → length xs ≡ order
    → All (IsWord w) xs
    → All (IsWord w) ys
    → Extends w xs (restore_fixed_by w (xs ++ ys) order)
unfolding restore_fixed_by restore_fixed32 restore_fixed
restore_fixed_by-Extends w order xs ys width le len hx hy = elim (Bool-cases (order == 0)) [
  | inl none_left ↦
      let bare : xs ≡ [] = empty xs (ground arith) in rw (none_left, bare) (ys, refl, hy)
  | inr some_left ↦ elim width [
    | inl e ↦
        let hx32 : All (IsWord 32) xs = rw e at hx in
        let hy32 : All (IsWord 32) ys = rw e at hy in
        let pos : 1 ≤ order = ground arith in
        rw (some_left, e)
          (restore-Extends (diff_coeffs order) xs ys (coeffs_two order pos le)
            (len ∙ coeffs_length order pos le) hx32 hy32)
    | inr e ↦ rw (some_left, e) (kept 64 order xs ys _ len (restore_with-Words 64 _ _ _))
  ]
]
  where
    empty : (xs : List ℕ) → length xs ≡ 0 → xs ≡ []
    empty [] e = refl
    empty (x ∷ xs) e = absurd (omega arith)

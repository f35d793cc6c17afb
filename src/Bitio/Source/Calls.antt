-- ===== src/Bitio/Source/Calls.antt =====
-- The three ways in which a call of `Read` with room for a byte goes on.
use go_flac.Prelude.{
  ℕ, zero, suc, ◌<◌, ◌≡◌, refl, sym, ap, ◌∙◌, List, [], ◌∷◌, ◌++◌, append_assoc, arith, none, some,
  length, take, drop, leb, true, ◌⊎◌, inl, inr, Bool-cases, take-drop, length-drop,
}
use go_flac.Errors.{Error, no_progress}
use go_flac.Bitio.Source.{Source, chunk, finish, read, delivered, ending}

-- Bytes, and no error.
abbrev pub Got : ℕ → ℕ → Source → Type 0
Got k room s =
    (b : ℕ) × (bs : List ℕ) × (s' : Source) × (read room s ≡ (b ∷ bs, none, s'))
    × ((b ∷ bs) ++ delivered 99 s' ≡ delivered k s)
    × (ending 99 s' ≡ ending k s)

-- The last bytes, and the error.
abbrev pub Last : ℕ → ℕ → Source → Type 0
Last k room s =
    (bs : List ℕ) × (e : Error) × (s' : Source) × (read room s ≡ (bs, some e, s'))
    × (bs ≡ delivered k s)
    × (e ≡ ending k s)

-- Neither.
abbrev pub Empty : ℕ → ℕ → Source → Type 0
Empty k room s =
    (s' : Source) × (read room s ≡ ([], none, s'))
    × (delivered k s ≡ elim k [ zero ↦ [] | suc k' ↦ delivered k' s' ])
    × (ending k s ≡ elim k [ zero ↦ no_progress | suc k' ↦ ending k' s' ])

chunk_nonempty :
    (k : ℕ) (bs : List ℕ) (s : Source)
    → 0 < length bs
    → (delivered k (chunk bs s) ≡ bs ++ delivered 99 s) × (ending k (chunk bs s) ≡ ending 99 s)
unfolding delivered ending
chunk_nonempty k [] s h = absurd (omega arith)
chunk_nonempty k (b ∷ bs) s h = (refl, refl)

pub read_cases :
    (k room : ℕ) (s : Source) → 0 < room → Got k room s ⊎ (Last k room s ⊎ Empty k room s)
unfolding read delivered ending
read_cases k zero s h = absurd (omega arith)
read_cases k (suc r) (chunk [] s) h =
    let fits : leb 0 (suc r) ≡ true = ground arith in inr (inr (s, rw fits, refl, refl))
read_cases k (suc r) (chunk (b ∷ bs) s) h = elim (Bool-cases (leb (suc (length bs)) (suc r))) [
  | inl fits ↦ inl (b, bs, s, rw fits, refl, refl)
  | inr over ↦
      let (bytes_eq, end_eq) = chunk_nonempty 99 (drop r bs) s (ground (arith, length-drop r bs)) in
      inl (
        b,
        take r bs,
        chunk (drop r bs) s,
        rw over,
        ap (λ (t : List ℕ). (b ∷ take r bs) ++ t) bytes_eq
            ∙ sym (append_assoc (b ∷ take r bs) (drop r bs) (delivered 99 s))
            ∙ ap (λ (t : List ℕ). (b ∷ t) ++ delivered 99 s) (take-drop r bs),
        end_eq,
      )
]
read_cases k (suc r) (finish [] e) h =
    let fits : leb 0 (suc r) ≡ true = ground arith in
    inr (inl ([], e, finish [] e, rw fits, refl, refl))
read_cases k (suc r) (finish (b ∷ bs) e) h = elim (Bool-cases (leb (suc (length bs)) (suc r))) [
  | inl fits ↦ inr (inl (b ∷ bs, e, finish [] e, rw fits, refl, refl))
  | inr over ↦ inl (
    b,
    take r bs,
    finish (drop r bs) e,
    rw over,
    ap (λ (t : List ℕ). b ∷ t) (take-drop r bs),
    refl,
  )
]

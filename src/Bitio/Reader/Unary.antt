-- ===== src/Bitio/Reader/Unary.antt =====
-- `ReadUnary` against the abstract reader.
use go_flac.Prelude.{
  ℕ, zero, suc, ◌+◌, ◌-◌, ◌≤◌, ◌<◌, ◌≡◌, refl, sym, ap, ◌∙◌, List, [], ◌∷◌, ◌++◌, append_assoc,
  length, length-append, ltb, leb, arith, replicate, false, Bool-cases, inl, inr, if◌then◌else◌,
  ◌==◌, ltb→lt, gt→leb, le→leb, ltb→ge, append_cancel,
}
use go_flac.Prelude.Word.{shr}
use go_flac.Bitstream.{to_bits, length-to_bits, unary_bits, replicate-add}
use go_flac.Bitio.Reader.{Reader, Run, ok}
use go_flac.Bitio.Reader.Read.{top_up, fill, consume, leading_zeros, unary_loop, read_unary}
use go_flac.Bitio.Reader.Pending.{
  held, pending, IsValid, Takes, Takes-refl, Takes-trans, held_value, consume-Takes,
}
use go_flac.Bitio.Reader.Refill.{fill-Takes}
use go_flac.Bitio.Reader.Serve.{front_unique, length-held, drained, drained-Takes}
use go_flac.Bitio.Reader.Zeros.{
  stop_behind, length-pending, Filled-pos, front', lz_within, lz_behind,
}

top_up-Takes :
    {b : Reader}
    → IsValid b
    → Takes b [] (top_up b) × (0 < length (pending b) → 0 < (top_up b).nbits)
unfolding top_up
top_up-Takes {b} v = elim (Bool-cases (b.nbits == 0)) [
  | inl empty ↦
      let (t, filled) = fill-Takes v in
      rw empty (t, λ some_bits. Filled-pos (fill b) filled (rw t.rest at some_bits))
  | inr some_left ↦ rw some_left (Takes-refl v, λ _. ground arith)
]

pub length-unary_bits : (q : ℕ) → length (unary_bits q) ≡ q + 1
unfolding unary_bits
length-unary_bits zero = refl
length-unary_bits (suc q) = omega (arith, length-unary_bits q)

unary_bits-split : (n q : ℕ) → n ≤ q → replicate n 0 ++ unary_bits (q - n) ≡ unary_bits q
unfolding unary_bits
unary_bits-split n q h =
    let e : n + (q - n) ≡ q = omega arith in
    sym (append_assoc (replicate n 0) (replicate (q - n) 0) (1 ∷ []))
    ∙ ap (λ (t : List ℕ). t ++ (1 ∷ [])) (sym (replicate-add n (q - n) 0))
    ∙ ap (λ (k : ℕ). replicate k 0 ++ (1 ∷ [])) e

-- What the loop makes of `q` zeros and a one.
abbrev Counted : ℕ → ℕ → Reader → List ℕ → Run ℕ → Type 0
Counted count q b rest run =
    (b' : Reader) × (run ≡ ok (count + q) b') × Takes b (unary_bits q) b' × (pending b' ≡ rest)

-- The stop bit is in the register.
found :
    (f : Reader) (v : IsValid f) (count q : ℕ) (rest : List ℕ)
    → pending f ≡ unary_bits q ++ rest
    → q < f.nbits
    → Counted count q f rest (ok (count + q) (consume (q + 1) f))
found f v count q rest front lt =
    let t = consume-Takes (q + 1) v (omega arith) in
    let n : ℕ = shr f.acc (64 - (q + 1)) in
    let len : length (to_bits (q + 1) n) ≡ length (unary_bits q) =
      length-to_bits (q + 1) n ∙ sym (length-unary_bits q) in
    let (same, rest_same) =
      front_unique (to_bits (q + 1) n) (unary_bits q) (pending (consume (q + 1) f)) rest len
        (sym t.rest ∙ front) in
    (consume (q + 1) f, refl, rw (sym same) t, rest_same)

-- The register holds zeros only.
drained_front :
    (f : Reader) (v : IsValid f) (q : ℕ) (rest : List ℕ)
    → pending f ≡ unary_bits q ++ rest
    → f.nbits ≤ q
    → (to_bits f.nbits v.value ≡ replicate f.nbits 0)
      × (pending (drained f v) ≡ unary_bits (q - f.nbits) ++ rest)
drained_front f v q rest front le =
    let (zs, tail) =
      stop_behind (held f) _ q rest (front' v q rest front) (omega (arith, length-held f)) in
    let t = drained-Takes f v in
    let all : to_bits f.nbits v.value ≡ replicate f.nbits 0 =
      sym (held_value v) ∙ zs ∙ ap (λ (k : ℕ). replicate k 0) (length-held f) in
    (
      all,
      append_cancel (replicate f.nbits 0) (pending (drained f v)) (unary_bits (q - f.nbits) ++ rest)
          (ap (λ (l : List ℕ). l ++ pending (drained f v)) (sym all)
            ∙ sym t.rest
            ∙ front
            ∙ ap (λ (l : List ℕ). l ++ rest) (sym (unary_bits-split f.nbits q le))
            ∙ append_assoc (replicate f.nbits 0) (unary_bits (q - f.nbits)) rest),
    )

-- One round on a register that is not empty, given the rounds after it.
round :
    (k count q : ℕ) (f : Reader) (v : IsValid f) (rest : List ℕ)
    → pending f ≡ unary_bits q ++ rest
    → (f.nbits ≤ q
        → pending (drained f v) ≡ unary_bits (q - f.nbits) ++ rest
        → Counted
            (count + f.nbits)
            (q - f.nbits)
            (drained f v)
            rest
            (unary_loop k (count + f.nbits) (drained f v)))
    → Counted count q f rest (
        if leb f.nbits (leading_zeros 64 f.acc)
        then unary_loop k (count + f.nbits) (drained f v)
        else ok (count + leading_zeros 64 f.acc) (consume (leading_zeros 64 f.acc + 1) f))
round k count q f v rest front next = elim (Bool-cases (ltb q f.nbits)) [
  | inl within ↦
      let lt = ltb→lt q f.nbits within in
      rw (lz_within v q rest front lt, gt→leb f.nbits q lt) (found f v count q rest front lt)
  | inr behind ↦
      let le = ltb→ge q f.nbits behind in
      let (all, tail) = drained_front f v q rest front le in
      let (b', run, t, same) = next le tail in
      let total : count + f.nbits + (q - f.nbits) ≡ count + q = omega arith in
      rw (le→leb f.nbits (leading_zeros 64 f.acc) (lz_behind v q rest front le)) (
        b',
        run ∙ ap (λ (n : ℕ). ok n b') total,
        rw (unary_bits-split f.nbits q le) at (Takes-trans (rw all at (drained-Takes f v)) t),
        same,
      )
]

unary_loop-Counted :
    (k count q : ℕ) (b : Reader) (rest : List ℕ)
    → IsValid b
    → pending b ≡ unary_bits q ++ rest
    → q < k
    → Counted count q b rest (unary_loop k count b)
unfolding unary_loop
unary_loop-Counted zero count q b rest v front lt = absurd (omega arith)
unary_loop-Counted (suc k) count q b rest v front lt =
    let (t, pos) = top_up-Takes v in
    let f : Reader = top_up b in
    let front_f : pending f ≡ unary_bits q ++ rest = sym t.rest ∙ front in
    let some_bits : 0 < length (pending b) = omega (
      arith,
      ap (λ (l : List ℕ). length l) front,
      length-append (unary_bits q) rest,
      length-unary_bits q,
    ) in
    let filled : 0 < f.nbits = pos some_bits in
    let not_empty : (f.nbits == 0) ≡ false = ground arith in
    let (b', run, u, same) = round k count q f t.valid rest front_f (λ le tail.
      unary_loop-Counted k (count + f.nbits) (q - f.nbits) (drained f t.valid) rest
        (drained-Takes f t.valid).valid tail (omega arith)) in
    rw not_empty (b', run, Takes-trans t u, same)

-- On a valid reader whose pending bits start with `q` zeros and a one, `ReadUnary` returns `q`,
-- takes these bits, and leaves a valid reader on the rest.
pub read_unary_lem :
    (q : ℕ) (b : Reader) (rest : List ℕ)
    → IsValid b
    → pending b ≡ unary_bits q ++ rest
    → (b' : Reader) × (read_unary b ≡ ok q b') × Takes b (unary_bits q) b' × (pending b' ≡ rest)
unfolding read_unary
read_unary_lem q b rest v front =
    let bound = length-pending b in
    let len = ap (λ (l : List ℕ). length l) front in
    let e : 0 + q ≡ q = omega arith in
    let (b', run, t, same) =
      unary_loop-Counted _ 0 q b rest v front
        (omega (arith, length-append (unary_bits q) rest, length-unary_bits q)) in
    (b', run ∙ ap (λ (n : ℕ). ok n b') e, t, same)

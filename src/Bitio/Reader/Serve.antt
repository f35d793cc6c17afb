-- ===== src/Bitio/Reader/Serve.antt =====
-- `ReadBits` against the abstract reader: a list of bits and the error that it ends with.
use go_flac.Prelude.{
  ℕ, ◌+◌, ◌-◌, ◌/◌, ◌^◌, ◌≤◌, ◌<◌, ◌≡◌, refl, sym, ap, ◌∙◌, List, [], ◌∷◌, ◌++◌, append-nil, length,
  length-append, leb, arith, Option, some, Bool-cases, inl, inr, ◌⊎◌, drop_all, leb→le, leb→gt,
  get_or,
}
use mathlib.Core.Path.{subst}
use go_flac.Prelude.Word.{shr}
use go_flac.Prelude.Pow.{div-lt-pow}
use go_flac.Errors.{Error, no_clean_end, eof}
use go_flac.Bitstream.{to_bits, of_bits, bytes_bits, length-to_bits, of_bits-to_bits}
use go_flac.Bitio.Register.{value_of, top_bits}
use go_flac.Bitio.Reader.{tap_consumed, Reader, Run, ok, err}
use go_flac.Bitio.Reader.Read.{
  serve, exhausted, fill, read_short, read_bits_slow, read_bits_upto, read_bits,
}
use go_flac.Bitio.Reader.Pending.{
  held, coming, pending, final_error, IsValid, Takes, Takes-trans, consume-Takes,
  tap_consumed-Takes,
}
use go_flac.Bitio.Reader.Refill.{fill-Takes, Filled}
use native.Mathlib.Nat.{mod-eq_of_lt}

-- The error of a read that the stream is too short for: a clean end only at the very end.
abbrev pub short_error : List ℕ → Error → Error
short_error [] e = e
short_error (x ∷ xs) e = no_clean_end e

no_clean_end_twice : (e : Error) → no_clean_end (no_clean_end e) ≡ no_clean_end e
no_clean_end_twice eof = refl
no_clean_end_twice e = refl

no_clean_end-short_error :
    (bs : List ℕ) (e : Error) → no_clean_end (short_error bs e) ≡ no_clean_end e
no_clean_end-short_error [] e = refl
no_clean_end-short_error (x ∷ xs) e = no_clean_end_twice e

-- What a read of `n` bits makes of the reader `b`.
abbrev Served : ℕ → Reader → Run ℕ → Type 0
Served n b run = (v : ℕ) × (b' : Reader) × (run ≡ ok v b') × (v < 2 ^ n) × Takes b (to_bits n v) b'

abbrev Short : ℕ → Reader → Run ℕ → Type 0
Short n b run =
    (b' : Reader) × (length (pending b) < n)
    × (run ≡ err (short_error (pending b) (final_error b)) b')

abbrev Outcome : ℕ → Reader → Run ℕ → Type 0
Outcome n b run = Served n b run ⊎ Short n b run

-- An outcome after a refill is one before it.
Outcome-after :
    (n : ℕ) {b f : Reader} {run : Run ℕ} → Takes b [] f → Outcome n f run → Outcome n b run
Outcome-after n t (inl (v, b', e, lt, u)) = inl (v, b', e, lt, Takes-trans t u)
Outcome-after n t (inr (b', few, e)) = inr (b', rw t.rest few, rw (t.rest, sym t.same_end) e)

serve-Served : (n : ℕ) {b : Reader} → IsValid b → n ≤ b.nbits → Served n b (serve n b)
unfolding serve
serve-Served n {b} v le =
    let whole : b.nbits ≡ n + (b.nbits - n) = omega arith in
    let lt : v.value < 2 ^ (n + (b.nbits - n)) = rw (sym whole) v.holds.fits in
    (
      shr b.acc (64 - n),
      _,
      refl,
      rw (top_bits n v.holds le) (div-lt-pow v.value n (b.nbits - n) lt),
      consume-Takes n v le,
    )

-- With nothing left to load, the register holds all that is pending.
pub pending_held :
    (f : Reader) {e : Error} → length f.buf ≤ f.r → f.error ≡ some e → pending f ≡ held f
unfolding pending coming bytes_bits
pending_held f le failed = rw (drop_all f.r f.buf le, failed, append-nil)

failed_end : (f : Reader) {e : Error} → f.error ≡ some e → final_error f ≡ e
unfolding final_error
failed_end f failed = rw failed

pub length-held : (f : Reader) → length (held f) ≡ f.nbits
unfolding held
length-held f = length-to_bits f.nbits (f.acc / 2 ^ (64 - f.nbits))

exhausted_end :
    (f : Reader) (e : Error) (bs : List ℕ)
    → length bs ≡ f.nbits
    → exhausted e f ≡ err (short_error bs e) f
unfolding exhausted
exhausted_end f e [] h = ground arith
exhausted_end f e (x ∷ xs) h = ground arith

exhausted-Short :
    (n : ℕ) (f : Reader) (e : Error)
    → length f.buf ≤ f.r
    → f.error ≡ some e
    → f.nbits < n
    → Short n f (exhausted e f)
exhausted-Short n f e le failed few =
    let all = pending_held f le failed in
    let count = length-held f in
    rw (failed_end f failed) (f, rw all (omega arith), exhausted_end f e (pending f) (rw all count))

-- A register emptied at once.
module _ (f : Reader) (v : IsValid f) where
  abbrev pub drained : Reader
  drained = tap_consumed (record f { acc = 0; nbits = 0 })

  pub drained-Takes : Takes f (to_bits f.nbits v.value) drained
  drained-Takes = tap_consumed-Takes (record {
    valid = record {
      value = 0;
      holds = record { aligned = omega arith; fits = omega arith; narrow = omega arith };
      r_le = v.r_le;
      size_ge = v.size_ge;
    };
    rest = unfold pending coming held to_bits in rw (value_of v.holds);
    same_end = unfold final_error in refl;
  })

short-Outcome :
    (again : ℕ → Reader → Run ℕ) (n : ℕ) (f : Reader)
    → n ≤ 57
    → f.nbits < n
    → Filled f
    → Outcome n f (read_short again n f.error f)
unfolding read_short
short-Outcome again n f h lt (inl full) = absurd (omega arith)
short-Outcome again n f h lt (inr (le, (e, failed))) =
    subst (λ (x : Option Error). Outcome n f (read_short again n x f)) (sym failed)
      (inr (exhausted-Short n f e le failed lt))

read_bits_slow-Outcome :
    (again : ℕ → Reader → Run ℕ) (n : ℕ) {b : Reader}
    → n ≤ 57
    → IsValid b
    → Outcome n b (read_bits_slow again n b)
unfolding read_bits_slow
read_bits_slow-Outcome again n {b} h v =
    let (t, filled) = fill-Takes v in
    Outcome-after n t (elim (Bool-cases (leb n (fill b).nbits)) [
      | inl enough ↦ rw enough (inl (serve-Served n t.valid (leb→le n (fill b).nbits enough)))
      | inr few ↦ rw few (short-Outcome again n (fill b) h (leb→gt n (fill b).nbits few) filled)
    ])

read_bits-Outcome : (n : ℕ) {b : Reader} → n ≤ 57 → IsValid b → Outcome n b (read_bits n b)
unfolding read_bits
read_bits-Outcome n {b} h v = elim (Bool-cases (leb n b.nbits)) [
  | inl enough ↦ rw enough (inl (serve-Served n v (leb→le n b.nbits enough)))
  | inr few ↦ rw few (read_bits_slow-Outcome (read_bits_upto 1) n h v)
]

-- Bits of the same number, at the front of the same list.
pub front_unique :
    (bs cs xs ys : List ℕ) → length bs ≡ length cs → bs ++ xs ≡ cs ++ ys → (bs ≡ cs) × (xs ≡ ys)
front_unique [] [] xs ys len e = (refl, e)
front_unique [] (c ∷ cs) xs ys len e = absurd (omega arith)
front_unique (b ∷ bs) [] xs ys len e = absurd (omega arith)
front_unique (b ∷ bs) (c ∷ cs) xs ys len e =
    let (p, q) = front_unique bs cs xs ys (omega arith) (cc e) in
    (cc (p, ap (λ (t : List ℕ). get_or t 0 0) e), q)

-- With at least `n` bits pending in a valid reader, `ReadBits` for `n` up to 57 returns the number
-- that the first `n` of them stand for, and leaves a valid reader on the rest.
pub read_bits_enough :
    (n : ℕ) (b : Reader) (bs rest : List ℕ)
    → n ≤ 57
    → IsValid b
    → pending b ≡ bs ++ rest
    → length bs ≡ n
    → (b' : Reader) × (read_bits n b ≡ ok (of_bits bs) b') × Takes b bs b' × (pending b' ≡ rest)
read_bits_enough n b bs rest h v front len = elim (read_bits-Outcome n h v) [
  | inl (x, b', run, lt, t) ↦
      let (same, rest_same) =
        front_unique (to_bits n x) bs (pending b') rest (length-to_bits n x ∙ sym len)
          (sym t.rest ∙ front) in
      let value : x ≡ of_bits bs =
        sym (mod-eq_of_lt lt) ∙ sym (of_bits-to_bits n x) ∙ ap of_bits same in
      (b', run ∙ ap (λ (k : ℕ). ok k b') value, rw (sym same) t, rest_same)
  | inr (b', few, run) ↦
      absurd (omega (arith, ap (λ (t : List ℕ). length t) front, length-append bs rest))
]

-- With fewer than `n` bits pending in a valid reader, `ReadBits` for `n` up to 57 fails: with the error that the stream ends with if no bit
-- is left, and with no clean end of file otherwise.
pub read_bits_short :
    (n : ℕ) (b : Reader)
    → n ≤ 57
    → IsValid b
    → length (pending b) < n
    → (b' : Reader) × (read_bits n b ≡ err (short_error (pending b) (final_error b)) b')
read_bits_short n b h v few = elim (read_bits-Outcome n h v) [
  | inl (x, b', run, lt, t) ↦ absurd (
      omega (
        arith,
        ap (λ (l : List ℕ). length l) t.rest,
        length-append (to_bits n x) (pending b'),
        length-to_bits n x,
      ))
  | inr (b', _, run) ↦ (b', run)
]

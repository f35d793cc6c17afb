-- ===== src/Bitio/Reader/Refill.antt =====
-- `readMore` and `fill` as a whole: no bit is lost, and the register is topped up as far as the
-- source allows.
use go_flac.Prelude.{
  ℕ, zero, suc, ◌+◌, ◌-◌, ◌*◌, ◌/◌, ◌≤◌, ◌<◌, ◌≡◌, refl, sym, ap, ◌∙◌, List, [], ◌++◌, length, ltb,
  leb, arith, Option, none, some, drop, Bool, Bool-cases, Option-cases, inl, inr, ◌⊎◌,
  if◌then◌else◌, ◌&&◌, drop-drop, length-drop, ◌==◌, leb→le, lt→ltb, ltb→lt, ltb→ge, gt→leb, le→leb,
}
use go_flac.Errors.{Error}
use go_flac.Bitstream.{bytes_bits, bytes_bits-append}
use go_flac.Bitio.Source.{delivered, ending}
use go_flac.Bitio.Reader.{
  Reader, consumed_bytes, flush_tap, emit_taps, refill_loop, refill, unless_failed, compact,
  read_more,
}
use go_flac.Bitio.Reader.Read.{load_byte, load_word, ready, fill_loop, fill}
use go_flac.Bitio.Reader.Pending.{
  held, coming, pending, final_error, IsValid, Takes, Takes-refl, Takes-trans, load_byte-Takes,
}
use go_flac.Bitio.Reader.Fill.{Refilled, refill_loop-Refilled, load_word-Takes}

-- The two ways in which the search for more bytes ends.
abbrev pub Progress : Reader → Type 0
Progress b = (b.r < length b.buf) ⊎ ((length b.buf ≤ b.r) × ((e : Error) × (b.error ≡ some e)))

Progress-of : (c : Reader) → (c.r < length c.buf) ⊎ ((e : Error) × (c.error ≡ some e)) → Progress c
Progress-of c (inl lt) = inl lt
Progress-of c (inr failed) = elim (Bool-cases (ltb c.r (length c.buf))) [
  | inl lt ↦ inl (ltb→lt c.r (length c.buf) lt)
  | inr ge ↦ inr (ltb→ge c.r (length c.buf) ge, failed)
]

flush_shape :
    (b : Reader) → (t : List ℕ) × (n : ℕ) × (flush_tap b ≡ record b { tapped = t; tap_cur = n })
unfolding flush_tap
flush_shape b = elim (Bool-cases (b.ranged && ltb b.tap_cur (consumed_bytes b))) [
  | inl e ↦
      ((emit_taps (consumed_bytes b) b).tapped, consumed_bytes b, rw e (unfold emit_taps in refl))
  | inr e ↦ (b.tapped, b.tap_cur, rw e)
]

-- `compact` drops only bytes that lie behind the cursor.
module _ {b : Reader} (v : IsValid b) (t : List ℕ) (n : ℕ) where
  abbrev cut : Reader
  cut = compact (record b { tapped = t; tap_cur = n })

  behind : consumed_bytes b ≤ b.r
  unfolding consumed_bytes
  behind = omega arith

  kept_tail : drop cut.r cut.buf ≡ drop b.r b.buf
  unfolding compact
  kept_tail =
      let le = behind in
      let e : consumed_bytes b + (b.r - consumed_bytes b) ≡ b.r = omega arith in
      drop-drop (b.r - consumed_bytes b) (consumed_bytes b) b.buf ∙ ap (λ (k : ℕ). drop k b.buf) e

  cut_at_end : b.r ≡ length b.buf → cut.r ≡ length cut.buf
  unfolding compact
  cut_at_end e = omega (arith, length-drop (consumed_bytes b) b.buf)

  cut_room : b.r ≡ length b.buf → length cut.buf < cut.size
  unfolding compact consumed_bytes
  cut_room e =
      let large = v.size_ge in
      let narrow = v.holds.narrow in omega (arith, length-drop ((b.r * 8 - b.nbits) / 8) b.buf)

  -- What the refilled reader serves, once the loop ran on the compacted one.
  read_more-Takes :
      (c : Reader)
      → b.error ≡ none
      → b.r ≡ length b.buf
      → Refilled 99 cut c
      → Takes b [] c × (c.nbits ≡ b.nbits) × Progress c
  unfolding compact
  read_more-Takes c fine at_end f =
      let held_same : held c ≡ held b = unfold held in rw (f.kept_acc, f.kept_nbits) in
      let from_source : coming b ≡ delivered 99 b.src = unfold coming in rw fine in
      let old_end : final_error b ≡ ending 99 b.src = unfold final_error in rw fine in
      let bits_same : bytes_bits (drop c.r c.buf) ++ bytes_bits (coming c)
          ≡ bytes_bits (drop b.r b.buf) ++ bytes_bits (coming b) =
        sym (bytes_bits-append (drop c.r c.buf) (coming c))
        ∙ ap bytes_bits (f.bytes_same ∙ ap (λ (t : List ℕ). t ++ delivered 99 b.src) kept_tail)
        ∙ bytes_bits-append (drop b.r b.buf) (delivered 99 b.src)
        ∙ ap (λ (t : List ℕ). bytes_bits (drop b.r b.buf) ++ bytes_bits t) (sym from_source) in
      (
        record {
          valid = record {
            value = v.value;
            holds = rw (f.kept_acc, f.kept_nbits) v.holds;
            r_le = f.cursor;
            size_ge = rw f.kept_size v.size_ge;
          };
          rest = unfold pending in rw (held_same, bits_same);
          same_end = f.end_same ∙ sym old_end;
        },
        f.kept_nbits,
        Progress-of c f.progress,
      )

-- `readMore` before it reads: an error is sticky.
read_more_failed : (b : Reader) {e : Error} → b.error ≡ some e → read_more b ≡ b
unfolding read_more
read_more_failed b e = ap (λ (x : Option Error). unless_failed x b) e

refill-eq_loop : (c : Reader) → length c.buf < c.size → refill c ≡ refill_loop 100 c
unfolding refill
refill-eq_loop c room = ap (λ (x : Bool). if x then refill_loop 100 c else c) (lt→ltb _ _ room)

read_more_fine : (b : Reader) → b.error ≡ none → read_more b ≡ refill (compact (flush_tap b))
unfolding read_more
read_more_fine b e = ap (λ (x : Option Error). unless_failed x b) e

-- After `ready` there is a byte to load, or an error.
abbrev Ready : Reader → Reader → Type 0
Ready b b' = Takes b [] b' × (b'.nbits ≡ b.nbits) × Progress b'

refilled-Ready :
    {b : Reader} (v : IsValid b) → b.r ≡ length b.buf → b.error ≡ none → Ready b (read_more b)
refilled-Ready {b} v at_end fine =
    let (t, n, shape) = flush_shape b in
    let c : Reader = record b { tapped = t; tap_cur = n } in
    let room : length (compact c).buf < (compact c).size = cut_room v t n at_end in
    rw (read_more_fine b fine, shape, refill-eq_loop (compact c) room)
      (read_more-Takes v t n (refill_loop 100 (compact c)) fine at_end
        (refill_loop-Refilled 99 (compact c) (cut_at_end v t n at_end) room))

pub ready-Ready : {b : Reader} → IsValid b → Ready b (ready b)
unfolding ready
ready-Ready {b} v = elim (Bool-cases (leb (length b.buf) b.r)) [
  | inl at_end ↦
      let le = leb→le (length b.buf) b.r at_end in
      let cursor = v.r_le in
      rw at_end (elim (Option-cases b.error) [
        | inl fine ↦ refilled-Ready v (omega arith) fine
        | inr (e, failed) ↦
            rw (read_more_failed b failed) (Takes-refl v, refl, inr (le, (e, failed)))
      ])
  | inr more ↦ rw more (Takes-refl v, refl, inl (ground arith))
]

-- `fill` ends with 57 bits or more in the register, or with nothing left to load.
abbrev pub Filled : Reader → Type 0
Filled b = (57 ≤ b.nbits) ⊎ ((length b.buf ≤ b.r) × ((e : Error) × (b.error ≡ some e)))

-- A round of the loop, given the rest of it.
loaded :
    (k : ℕ) (b c : Reader)
    → Takes b [] c
    → 57 ≤ c.nbits + suc k * 8
    → Progress c
    → c.nbits ≤ 56
    → (IsValid (load_byte c)
        → 57 ≤ (load_byte c).nbits + k * 8
        → Takes (load_byte c) [] (fill_loop k (load_byte c)) × Filled (fill_loop k (load_byte c)))
    → (let d = if leb (length c.buf) c.r then c else fill_loop k (load_byte c) in
        Takes b [] d × Filled d)
loaded k b c t h (inr (none_left, failed)) low next =
    rw (le→leb (length c.buf) c.r none_left) (t, inr (none_left, failed))
loaded k b c t h (inl more) low next =
    let one = load_byte-Takes t.valid low more in
    let (rest, filled) = next one.valid (unfold load_byte in omega arith) in
    rw (gt→leb (length c.buf) c.r more) (Takes-trans (Takes-trans t one) rest, filled)

fill_loop-Takes :
    (k : ℕ) {b : Reader}
    → IsValid b
    → 57 ≤ b.nbits + k * 8
    → Takes b [] (fill_loop k b) × Filled (fill_loop k b)
unfolding fill_loop
fill_loop-Takes zero v h = (Takes-refl v, inl (omega arith))
fill_loop-Takes (suc k) {b} v h = elim (Bool-cases (leb b.nbits 56)) [
  | inl low ↦
      let (t, same, progress) = ready-Ready v in
      let le = leb→le b.nbits 56 low in
      rw low (
        loaded k b (ready b) t (omega arith) progress (omega arith)
          (λ v' h'. fill_loop-Takes k v' h'))
  | inr full ↦ rw full (Takes-refl v, inl (ground arith))
]

-- From a valid reader, `fill` neither serves nor loses a bit nor changes the error that the stream
-- ends with, and ends either with 57 bits or more in the register, or with the buffer empty and an
-- error recorded.
pub fill-Takes : {b : Reader} → IsValid b → Takes b [] (fill b) × Filled (fill b)
unfolding fill
fill-Takes {b} v = elim (Bool-cases (b.nbits == 0 && leb 8 (length b.buf - b.r))) [
  | inl word ↦ rw word (
    load_word-Takes v (ground arith) (ground (arith, v.r_le)),
    inl (unfold load_word in omega arith),
  )
  | inr bytes ↦ rw bytes (fill_loop-Takes 8 v (omega arith))
]

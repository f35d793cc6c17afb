-- ===== src/Bitio/Reader/Fill.antt =====
-- `readMore` and `fill` serve no bit: they bring bytes closer, from the source to the block and
-- from the block to the register.
use go_flac.Prelude.{
  ℕ, zero, suc, ◌+◌, ◌-◌, ◌*◌, ◌^◌, ◌≤◌, ◌<◌, ◌≡◌, refl, sym, ap, ◌∙◌, List, [], ◌∷◌, ◌++◌,
  append_assoc, append-nil, length, length-append, ltb, arith, Option, none, some, drop, take, true,
  inl, inr, ◌⊎◌, drop-drop, take-drop, length-take, length-drop, drop-append_within,
}
use mathlib.Core.Path.{ap₂}
use go_flac.Prelude.Word.{byte}
use go_flac.Prelude.Pow.{fields-lt}
use go_flac.Errors.{Error, no_progress}
use go_flac.Bitstream.{to_bits, bytes_bits, to_bits_mod, to_bits_fields, bytes_bits-append}
use go_flac.Bitio.Source.{Source, read, delivered, ending}
use go_flac.Bitio.Source.Calls.{read_cases}
use go_flac.Bitio.Reader.{Reader, refill_step, refill_loop}
use go_flac.Bitio.Reader.Read.{of_bytes, load_word}
use go_flac.Bitio.Reader.Pending.{held, coming, pending, final_error, IsValid, Takes, held_value}

-- A word read big-endian has the bits of its bytes.
of_bytes_bits :
    (bs : List ℕ)
    → (of_bytes bs < 2 ^ (length bs * 8)) × (to_bits (length bs * 8) (of_bytes bs) ≡ bytes_bits bs)
unfolding of_bytes bytes_bits
of_bytes_bits [] = (omega arith, unfold to_bits in refl)
of_bytes_bits (b ∷ bs) =
    let (lt, same) = of_bytes_bits bs in
    let n : ℕ = length bs * 8 in
    let e : suc (length bs) * 8 ≡ 8 + n = omega arith in
    let small : byte b < 2 ^ 8 = omega arith in
    rw e (
      fields-lt (byte b) (of_bytes bs) 8 n small lt,
      to_bits_fields 8 n (byte b) (of_bytes bs) lt
          ∙ ap (λ (t : List ℕ). t ++ to_bits n (of_bytes bs)) (to_bits_mod 8 b)
          ∙ ap (λ (t : List ℕ). to_bits 8 b ++ t) same,
    )

pub load_word-Takes :
    {b : Reader} (v : IsValid b) → b.nbits ≡ 0 → b.r + 8 ≤ length b.buf → Takes b [] (load_word b)
unfolding load_word
load_word-Takes {b} v empty room =
    let word : List ℕ = take 8 (drop b.r b.buf) in
    let eight : length word ≡ 8 =
      length-take 8 (drop b.r b.buf) (omega (arith, length-drop b.r b.buf)) in
    let (lt, same) = of_bytes_bits word in
    let v' : IsValid (load_word b) = record {
      value = of_bytes word;
      holds = record { aligned = omega arith; fits = rw eight at lt; narrow = omega arith };
      r_le = omega arith;
      size_ge = v.size_ge;
    } in
    let nothing : held b ≡ [] = held_value v ∙ rw empty (unfold to_bits in refl) in
    let block : bytes_bits (drop b.r b.buf) ≡ bytes_bits word ++ bytes_bits (drop (b.r + 8) b.buf) =
      ap bytes_bits (sym (take-drop 8 (drop b.r b.buf)))
      ∙ bytes_bits-append word (drop 8 (drop b.r b.buf))
      ∙ ap (λ (t : List ℕ). bytes_bits word ++ bytes_bits t) (drop-drop 8 b.r b.buf) in
    record {
      valid = v';
      rest =
          unfold pending coming in
          (rw
            (
              nothing,
              held_value v',
              block,
              ap (λ (k : ℕ). to_bits (k * 8) (of_bytes word)) (sym eight),
              same,
            )
            (simp append_assoc));
      same_end = unfold final_error in refl;
    }

-- `readMore` at the end of the block: what the source delivers comes into the block, and there
-- is a byte to load or an error.
pub record Refilled (k : ℕ) (b b' : Reader) : Type 0 where
  pub kept_acc : b'.acc ≡ b.acc
  pub kept_nbits : b'.nbits ≡ b.nbits
  pub kept_size : b'.size ≡ b.size
  pub cursor : b'.r ≤ length b'.buf
  pub bytes_same : drop b'.r b'.buf ++ coming b' ≡ drop b.r b.buf ++ delivered k b.src
  pub end_same : final_error b' ≡ ending k b.src
  pub progress : (b'.r < length b'.buf) ⊎ ((e : Error) × (b'.error ≡ some e))

-- The state after a call of `Read` that returned `bs`, `e`.
abbrev after : Reader → List ℕ → Option Error → Source → Reader
after b bs e s = record b { src = s; buf = b.buf ++ bs; error = e }

module _ (k : ℕ) (b : Reader) where
  abbrev space : ℕ
  space = b.size - length b.buf

  refill_got :
      (x : ℕ) (bs : List ℕ) (s : Source)
      → read space b.src ≡ (x ∷ bs, none, s)
      → refill_loop (suc k) b ≡ after b (x ∷ bs) none s
  unfolding refill_loop
  refill_got x bs s e =
      let some_bytes : ltb 0 (length (x ∷ bs)) ≡ true = ground arith in
      ap (refill_step (refill_loop k) b) e ∙ rw some_bytes

  refill_last :
      (bs : List ℕ) (x : Error) (s : Source)
      → read space b.src ≡ (bs, some x, s)
      → refill_loop (suc k) b ≡ after b bs (some x) s
  unfolding refill_loop
  refill_last bs x s e = ap (refill_step (refill_loop k) b) e

  refill_empty :
      (s : Source)
      → read space b.src ≡ ([], none, s)
      → refill_loop (suc k) b ≡ refill_loop k (after b [] none s)
  unfolding refill_loop
  refill_empty s e = ap (refill_step (refill_loop k) b) e

module _ (k : ℕ) (b : Reader) (le : b.r ≤ length b.buf) where
  after-Refilled_got :
      (x : ℕ) (bs : List ℕ) (s : Source)
      → (x ∷ bs) ++ delivered 99 s ≡ delivered k b.src
      → ending 99 s ≡ ending k b.src
      → Refilled k b (after b (x ∷ bs) none s)
  unfolding coming final_error
  after-Refilled_got x bs s same end = record {
    kept_acc = refl;
    kept_nbits = refl;
    kept_size = refl;
    cursor = omega (arith, length-append b.buf (x ∷ bs));
    bytes_same = rw (drop-append_within b.r b.buf (x ∷ bs) le) (
        append_assoc (drop b.r b.buf) (x ∷ bs) (delivered 99 s)
        ∙ ap (λ (t : List ℕ). drop b.r b.buf ++ t) same);
    end_same = end;
    progress = inl (omega (arith, length-append b.buf (x ∷ bs)));
  }

  after-Refilled_last :
      (bs : List ℕ) (x : Error) (s : Source)
      → bs ≡ delivered k b.src
      → x ≡ ending k b.src
      → Refilled k b (after b bs (some x) s)
  unfolding coming final_error
  after-Refilled_last bs x s same end = record {
    kept_acc = refl;
    kept_nbits = refl;
    kept_size = refl;
    cursor = omega (arith, length-append b.buf bs);
    bytes_same =
        rw (drop-append_within b.r b.buf bs le, append-nil)
          (ap (λ (t : List ℕ). drop b.r b.buf ++ t) same);
    end_same = end;
    progress = inr (x, refl);
  }

module _ (b : Reader) (at_end : b.r ≡ length b.buf) (s : Source) where
  after-Refilled_stuck :
      [] ≡ delivered zero b.src
      → no_progress ≡ ending zero b.src
      → Refilled zero b (record b { src = s; buf = b.buf ++ []; error = some no_progress })
  after-Refilled_stuck same end = after-Refilled_last zero b (omega arith) [] no_progress s same end

  after-Refilled_again :
      (k : ℕ) (b' : Reader)
      → delivered k s ≡ delivered (suc k) b.src
      → ending k s ≡ ending (suc k) b.src
      → Refilled k (after b [] none s) b'
      → Refilled (suc k) b b'
  after-Refilled_again k b' same end f = record {
    kept_acc = f.kept_acc;
    kept_nbits = f.kept_nbits;
    kept_size = f.kept_size;
    cursor = f.cursor;
    bytes_same = f.bytes_same ∙ ap₂ (λ (t u : List ℕ). drop b.r t ++ u) (append-nil b.buf) same;
    end_same = f.end_same ∙ end;
    progress = f.progress;
  }

-- The loop as a whole, on every way in which the source answers.
pub refill_loop-Refilled :
    (k : ℕ) (b : Reader)
    → b.r ≡ length b.buf
    → length b.buf < b.size
    → Refilled k b (refill_loop (suc k) b)
refill_loop-Refilled zero b at_end room =
    elim (read_cases zero (b.size - length b.buf) b.src (omega arith)) [
      | inl (x, bs, s, e, same, end) ↦
          rw (refill_got zero b x bs s e) (after-Refilled_got zero b (omega arith) x bs s same end)
      | inr (inl (bs, x, s, e, same, end)) ↦
          rw (refill_last zero b bs x s e)
            (after-Refilled_last zero b (omega arith) bs x s same end)
      | inr (inr (s, e, same, end)) ↦
          rw (refill_empty zero b s e)
            (unfold refill_loop in after-Refilled_stuck b at_end s (sym same) (sym end))
    ]
refill_loop-Refilled (suc k) b at_end room =
    elim (read_cases (suc k) (b.size - length b.buf) b.src (omega arith)) [
      | inl (x, bs, s, e, same, end) ↦
          rw (refill_got (suc k) b x bs s e)
            (after-Refilled_got (suc k) b (omega arith) x bs s same end)
      | inr (inl (bs, x, s, e, same, end)) ↦
          rw (refill_last (suc k) b bs x s e)
            (after-Refilled_last (suc k) b (omega arith) bs x s same end)
      | inr (inr (s, e, same, end)) ↦
          let len : length (b.buf ++ []) ≡ length b.buf =
            ap (λ (t : List ℕ). length t) (append-nil b.buf) in
          rw (refill_empty (suc k) b s e) (
            after-Refilled_again b at_end s k _ (sym same) (sym end)
              (refill_loop-Refilled k (after b [] none s) (at_end ∙ sym len) (rw len room)))
    ]

-- ===== src/Bitio/Writer/Flush.antt =====
-- `flushFull`, `Bytes` and `AlignByte` keep the bits of a `Writer`; the unary and signed writes.
use go_flac.Prelude.{
  ℕ, zero, suc, ◌+◌, ◌-◌, ◌*◌, ◌/◌, ◌%◌, ◌^◌, ◌≤◌, ◌<◌, ◌≡◌, refl, sym, ap, ◌∙◌, List, [], ◌∷◌,
  ◌++◌, append_assoc, append-nil, length, length-append, ltb, arith, leb, Bool-cases, ltb→lt,
  ltb→ge, leb→le, inl, inr, replicate,
}
use go_flac.Prelude.Pow.{pow-pos, pow-add}
use go_flac.Prelude.Word.{shl64, shr, byte}
use go_flac.Bitstream.{
  to_bits, bytes_bits, to_bits-add, to_bits_mod, to_bits_fields, bytes_bits-append, bytes_bits_byte,
  unary_bits, to_bits-one, to_bits-zero, replicate-add, length-to_bits, length-bytes_bits,
}
use go_flac.Bitio.Writer.{
  Writer, flush_loop, flush_full, write_bits, write_signed_bits, unary_loop, write_unary,
  align_byte, bytes,
}
use go_flac.Bitio.Writer.Contents.{
  contents, IsValid, Writes, Writes-refl, Writes-trans, contents_pending, write_bits-Writes, masked,
}
use go_flac.Bitio.Register.{Holds, top_bits, shifted_out}
use native.Mathlib.Nat.{add-zero, mul-div_cancel, mul_assoc}

abbrev flush_byte : Writer → Writer
flush_byte w = record {
  buf = w.buf ++ (byte (shr w.acc 56) ∷ []);
  acc = shl64 w.acc 8;
  nbit = w.nbit - 8;
}

flush_byte-Writes : (w : Writer) (valid : IsValid w) → 8 ≤ w.nbit → Writes w [] (flush_byte w)
flush_byte-Writes w valid le =
    let m : ℕ = w.nbit - 8 in
    let h : Holds w.acc w.nbit valid.pending = record {
      aligned = valid.aligned;
      fits = valid.pending_lt;
      narrow = omega arith;
    } in
    let out = shifted_out 8 h le in
    let whole : w.nbit ≡ 8 + m = omega arith in
    let v' : IsValid (flush_byte w) = record {
      pending = valid.pending % 2 ^ m;
      nbit_lt = omega arith;
      pending_lt = out.fits;
      aligned = out.aligned;
    } in
    record {
      valid = v';
      appended =
          contents_pending v'
          ∙ rw
              (
                bytes_bits-append w.buf (byte (shr w.acc 56) ∷ []),
                top_bits 8 h le,
                to_bits_mod m valid.pending,
                append-nil,
                contents_pending valid,
                ap (λ (k : ℕ). to_bits k valid.pending) whole,
                to_bits-add 8 m valid.pending,
              )
              (simp (bytes_bits_byte, append_assoc));
    }

flush_loop-Writes :
    (k : ℕ) (w : Writer)
    → IsValid w
    → w.nbit < k * 8 + 8
    → Writes w [] (flush_loop k w) × ((flush_loop k w).nbit < 8)
unfolding flush_loop
flush_loop-Writes zero w valid h = (Writes-refl valid, omega arith)
flush_loop-Writes (suc k) w valid h = elim (Bool-cases (leb 8 w.nbit)) [
  | inl more ↦
      let le = leb→le 8 w.nbit more in
      let one = flush_byte-Writes w valid le in
      let (rest, small) = flush_loop-Writes k (flush_byte w) one.valid (omega arith) in
      rw more (Writes-trans one rest, small)
  | inr done ↦ rw done (Writes-refl valid, ground arith)
]

-- `flushFull` changes no bit, and leaves less than a byte pending.
pub flush_full-Writes :
    (w : Writer) → IsValid w → Writes w [] (flush_full w) × ((flush_full w).nbit < 8)
unfolding flush_full
flush_full-Writes w valid = let lt = valid.nbit_lt in flush_loop-Writes 8 w valid (omega arith)

pub length-contents : (w : Writer) → length (contents w) ≡ length w.buf * 8 + w.nbit
unfolding contents
length-contents w =
    length-append (bytes_bits w.buf) (to_bits w.nbit (w.acc / 2 ^ (64 - w.nbit)))
    ∙ omega (arith, length-bytes_bits w.buf, length-to_bits w.nbit (w.acc / 2 ^ (64 - w.nbit)))

contents_at_zero : (f : Writer) → f.nbit ≡ 0 → contents f ≡ bytes_bits f.buf
unfolding contents to_bits
contents_at_zero f e =
    ap (λ (k : ℕ). bytes_bits f.buf ++ to_bits k (f.acc / 2 ^ (64 - f.nbit))) e
    ∙ append-nil (bytes_bits f.buf)

-- If whole bytes were written to a valid writer, `Bytes` returns exactly the bits written, and
-- leaves a valid writer with the same contents.
pub bytes-contents :
    (w : Writer) (n : ℕ)
    → IsValid w
    → length (contents w) ≡ n * 8
    → (bytes_bits (bytes w).0 ≡ contents w) × Writes w [] (bytes w).1
unfolding bytes
bytes-contents w n valid whole =
    let (kept, small) = flush_full-Writes w valid in
    let f : Writer = flush_full w in
    let same : contents f ≡ contents w = kept.appended ∙ append-nil (contents w) in
    let none_left : f.nbit ≡ 0 =
      omega (arith, length-contents f, ap (λ (t : List ℕ). length t) same) in
    (sym (contents_at_zero f none_left) ∙ same, kept)

-- The bits that `AlignByte` adds after `n` bits.
abbrev pub padding : ℕ → ℕ
padding n = (8 - n % 8) % 8

padded_byte :
    (acc p b : ℕ)
    → acc ≡ p * 2 ^ (64 - b)
    → b ≤ 8
    → to_bits 8 (shr acc 56) ≡ to_bits b p ++ replicate (8 - b) 0
padded_byte acc p b ha hb =
    let e : 64 - b ≡ 8 - b + 56 = omega arith in
    let e' : 8 ≡ b + (8 - b) = omega arith in
    let held : acc ≡ p * 2 ^ (8 - b) * 2 ^ 56 =
      ha ∙ rw (e, pow-add (8 - b) 56) (sym (mul_assoc p (2 ^ (8 - b)) (2 ^ 56))) in
    let top : shr acc 56 ≡ p * 2 ^ (8 - b) + 0 =
      ap (λ (t : ℕ). t / 2 ^ 56) held
      ∙ mul-div_cancel (p * 2 ^ (8 - b)) (pow-pos 56)
      ∙ sym (add-zero (p * 2 ^ (8 - b))) in
    ap (to_bits 8) top
    ∙ ap (λ (k : ℕ). to_bits k (p * 2 ^ (8 - b) + 0)) e'
    ∙ to_bits_fields b (8 - b) p 0 (pow-pos (8 - b))
    ∙ ap (λ (t : List ℕ). to_bits b p ++ t) (to_bits-zero (8 - b))

-- `AlignByte` on a valid writer adds zeros up to the next byte boundary, and leaves nothing pending.
pub align_byte-Writes :
    (w : Writer)
    → IsValid w
    → Writes w (replicate (padding (length (contents w))) 0) (align_byte w)
      × ((align_byte w).nbit ≡ 0)
unfolding align_byte
align_byte-Writes w valid =
    let (kept, small) = flush_full-Writes w valid in
    let f : Writer = flush_full w in
    let same : contents f ≡ contents w = kept.appended ∙ append-nil (contents w) in
    let count = ap (λ (t : List ℕ). length t) same in
    elim (Bool-cases (ltb 0 f.nbit)) [
      | inl tail ↦
          let pos = ltb→lt 0 f.nbit tail in
          let pad : padding (length (contents w)) ≡ 8 - f.nbit =
            omega (arith, length-contents f, count) in
          let fv = kept.valid in
          rw (tail, pad)
            (
              record {
                valid = record {
                  pending = 0;
                  nbit_lt = omega arith;
                  pending_lt = omega arith;
                  aligned = refl;
                };
                appended =
                    contents_at_zero
                      (record { buf = f.buf ++ (byte (shr f.acc 56) ∷ []); acc = 0; nbit = 0 }) refl
                    ∙ bytes_bits-append f.buf (byte (shr f.acc 56) ∷ [])
                    ∙ ap (λ (t : List ℕ). bytes_bits f.buf ++ t)
                        (bytes_bits_byte (shr f.acc 56)
                          ∙ padded_byte f.acc fv.pending f.nbit fv.aligned (omega arith))
                    ∙ sym (
                        append_assoc (bytes_bits f.buf) (to_bits f.nbit fv.pending)
                          (replicate (8 - f.nbit) 0))
                    ∙ ap (λ (t : List ℕ). t ++ replicate (8 - f.nbit) 0)
                        (sym (contents_pending fv) ∙ same);
              },
              refl,
            )
      | inr empty ↦
          let zero_left = ltb→ge 0 f.nbit empty in
          let pad : padding (length (contents w)) ≡ 0 = omega (arith, length-contents f, count) in
          rw (empty, pad) (kept, omega arith)
    ]

-- `WriteSignedBits`, with `n` below 64, appends the low `n` bits of the two's complement pattern
-- `v` to the contents of a valid writer.
pub write_signed_bits-Writes :
    (w : Writer) (valid : IsValid w) (v n : ℕ)
    → n < 64
    → Writes w (to_bits n v) (write_signed_bits v n w)
unfolding write_signed_bits
write_signed_bits-Writes w valid v n lt =
    rw (masked v n lt) (rw (to_bits_mod n v) at (write_bits-Writes w valid (v % 2 ^ n) n lt))

unary_bits-add : (m q : ℕ) → to_bits m 0 ++ unary_bits q ≡ unary_bits (m + q)
unfolding unary_bits
unary_bits-add m q =
    rw (to_bits-zero m, replicate-add m q 0)
      (sym (append_assoc (replicate m 0) (replicate q 0) (1 ∷ [])))

unary_loop-Writes :
    (k q : ℕ) (w : Writer)
    → IsValid w
    → q < k * 32 + 32
    → Writes w (unary_bits q) (unary_loop k q w)
unfolding unary_loop
unary_loop-Writes zero q w valid h =
    rw (sym (to_bits-one q)) (write_bits-Writes w valid 1 (q + 1) (omega arith))
unary_loop-Writes (suc k) q w valid h = elim (Bool-cases (leb 32 q)) [
  | inl more ↦
      let le = leb→le 32 q more in
      let one = write_bits-Writes w valid 0 32 (omega arith) in
      let rest = unary_loop-Writes k (q - 32) (write_bits 0 32 w) one.valid (omega arith) in
      let e : 32 + (q - 32) ≡ q = omega arith in
      rw more (rw (unary_bits-add 32 (q - 32), e) at (Writes-trans one rest))
  | inr last ↦ rw (last, sym (to_bits-one q)) (write_bits-Writes w valid 1 (q + 1) (ground arith))
]

-- `WriteUnary` on a valid writer appends `q` zeros and a one, for every `q`.
pub write_unary-Writes :
    (w : Writer) (valid : IsValid w) (q : ℕ) → Writes w (unary_bits q) (write_unary q w)
unfolding write_unary
write_unary-Writes w valid q = unary_loop-Writes (q / 32) q w valid (omega arith)

-- ===== src/Bitio/Writer/Contents.antt =====
-- What a `Writer` has been given, as one list of bits, and the invariant of its register.
use go_flac.Prelude.{
  ℕ, zero, suc, ◌+◌, ◌-◌, ◌*◌, ◌/◌, ◌%◌, ◌^◌, ◌<◌, ◌≡◌, sym, ap, ◌∙◌, List, [], ◌++◌, append_assoc,
  append-nil, ltb, arith, bit_and, bit_or, if◌then◌else◌, lt→ltb, Bool-cases, ltb→lt, ltb→ge, inl,
  inr, ◌==◌, false,
}
use go_flac.Prelude.Pow.{pow-pos, pow-lt, fields-lt, div-lt-pow, shl_mod}
use go_flac.Prelude.Bits.{or_fields, and_mask}
use go_flac.Prelude.Word.{shl64}
use go_flac.Bitstream.{
  to_bits, bytes_bits, be_bytes, to_bits-add, to_bits_mod, to_bits_fields, bytes_bits-append,
  bytes_bits-be_bytes,
}
use go_flac.Bitio.Writer.{Writer, low_mask, write_over, write_bits}
use go_flac.Bitio.Register.{stage}
use native.Mathlib.Nat.{mod-lt, mul-div_cancel}

-- All the bits written so far, those still pending in the register included.
unfoldable pub contents : Writer → List ℕ
contents w = bytes_bits w.buf ++ to_bits w.nbit (w.acc / 2 ^ (64 - w.nbit))

-- The register holds `nbit` pending bits at its top and zeros below.
pub record IsValid (w : Writer) : Type 0 where
  pub pending : ℕ
  pub nbit_lt : w.nbit < 64
  pub pending_lt : pending < 2 ^ w.nbit
  pub aligned : w.acc ≡ pending * 2 ^ (64 - w.nbit)

-- `w'` is a valid writer that holds what `w` holds, and then `bs`.
pub record Writes (w : Writer) (bs : List ℕ) (w' : Writer) : Type 0 where
  pub valid : IsValid w'
  pub appended : contents w' ≡ contents w ++ bs

pub Writes-refl : {w : Writer} → IsValid w → Writes w [] w
Writes-refl {w} v = record { valid = v; appended = sym (append-nil (contents w)) }

pub Writes-trans :
    {w w' w'' : Writer} {bs cs : List ℕ}
    → Writes w bs w'
    → Writes w' cs w''
    → Writes w (bs ++ cs) w''
Writes-trans {w} {bs = bs} {cs = cs} p q = record {
  valid = q.valid;
  appended = q.appended ∙ ap (λ (t : List ℕ). t ++ cs) p.appended ∙ append_assoc (contents w) bs cs;
}

pub contents_pending :
    {w : Writer} (v : IsValid w) → contents w ≡ bytes_bits w.buf ++ to_bits w.nbit v.pending
unfolding contents
contents_pending {w} v =
    let e : w.acc / 2 ^ (64 - w.nbit) ≡ v.pending =
      rw v.aligned (mul-div_cancel v.pending (pow-pos (64 - w.nbit))) in
    ap (λ (t : ℕ). bytes_bits w.buf ++ to_bits w.nbit t) e

pub low_mask_lem : (n : ℕ) → n < 64 → low_mask n ≡ 2 ^ n - 1
low_mask_lem n h = omega (arith, pow-lt n 64 h, pow-pos n)

-- `WriteBits` where the field leaves room in the register.
write_within :
    (w : Writer) (valid : IsValid w) (v n e : ℕ)
    → v < 2 ^ n
    → w.nbit + n + e ≡ 64
    → 0 < e
    → Writes w (to_bits n v) (record w { acc = bit_or w.acc (shl64 v e); nbit = w.nbit + n })
write_within w valid v n e hv he pos =
    let free : 64 - w.nbit ≡ n + e = omega arith in
    let free' : 64 - (w.nbit + n) ≡ e = omega arith in
    let w' : Writer = record w { acc = bit_or w.acc (shl64 v e); nbit = w.nbit + n } in
    let v' : IsValid w' = record {
      pending = valid.pending * 2 ^ n + v;
      nbit_lt = omega arith;
      pending_lt = fields-lt valid.pending v w.nbit n valid.pending_lt hv;
      aligned = rw (free', valid.aligned, free) (stage valid.pending v n e hv (omega arith));
    } in
    record {
      valid = v';
      appended =
          contents_pending v'
          ∙ rw (to_bits_fields w.nbit n valid.pending v hv, contents_pending valid)
              (sym (append_assoc (bytes_bits w.buf) _ _));
    }

-- The completed word, as bits.
full_word :
    (acc p t nbit free : ℕ)
    → acc ≡ p * 2 ^ free
    → t < 2 ^ free
    → nbit + free ≡ 64
    → bytes_bits (be_bytes 8 (bit_or acc t)) ≡ to_bits nbit p ++ to_bits free t
full_word acc p t nbit free ha ht e =
    rw (ha, or_fields free p t ht, bytes_bits-be_bytes 8 (p * 2 ^ free + t))
      (ap (λ (k : ℕ). to_bits k (p * 2 ^ free + t)) (sym e) ∙ to_bits_fields nbit free p t ht)

-- What is staged in the fresh register.
staged_rest :
    (v rem : ℕ)
    → rem < 64
    → (if ltb 0 rem then shl64 v (64 - rem) else 0) ≡ v % 2 ^ rem * 2 ^ (64 - rem)
staged_rest v zero h = omega arith
staged_rest v (suc r) h =
    let e : 64 ≡ suc r + (64 - suc r) = omega arith in
    rw (lt→ltb 0 (suc r) (omega arith))
      (ap (λ (k : ℕ). v * 2 ^ (64 - suc r) % 2 ^ k) e ∙ shl_mod v (suc r) (64 - suc r))

-- `WriteBits` where the field completes the register.
write_over-Writes :
    (w : Writer) (valid : IsValid w) (v free rem : ℕ)
    → v < 2 ^ (free + rem)
    → free + rem < 64
    → w.nbit + free ≡ 64
    → Writes w (to_bits (free + rem) v) (write_over w v (free + rem) free)
unfolding write_over
write_over-Writes w valid v free rem hv lt e =
    let w' : Writer = write_over w v (free + rem) free in
    let rem_eq : free + rem - free ≡ rem = omega arith in
    let left : 64 - w.nbit ≡ free = omega arith in
    let held : w.acc ≡ valid.pending * 2 ^ free =
      valid.aligned ∙ ap (λ (t : ℕ). valid.pending * 2 ^ t) left in
    let top : v / 2 ^ rem < 2 ^ free = div-lt-pow v free rem hv in
    let v' : IsValid w' = record {
      pending = v % 2 ^ rem;
      nbit_lt = rw rem_eq (omega arith);
      pending_lt = rw rem_eq (mod-lt v (pow-pos rem));
      aligned = rw rem_eq (staged_rest v rem (omega arith));
    } in
    record {
      valid = v';
      appended =
          contents_pending v'
          ∙ rw
              (
                rem_eq,
                bytes_bits-append w.buf (be_bytes 8 (bit_or w.acc (v / 2 ^ rem))),
                full_word w.acc valid.pending (v / 2 ^ rem) w.nbit free held top e,
                to_bits_mod rem v,
                contents_pending valid,
                to_bits-add free rem v,
              )
              (simp append_assoc);
    }

pub masked : (v n : ℕ) → n < 64 → bit_and v (low_mask n) ≡ v % 2 ^ n
masked v n lt = rw (low_mask_lem n lt) (and_mask n v)

-- `WriteBits`, with `n` below 64, appends the low `n` bits of `v` to the contents of a valid writer,
-- and leaves a valid writer.
pub write_bits-Writes :
    (w : Writer) (valid : IsValid w) (v n : ℕ) → n < 64 → Writes w (to_bits n v) (write_bits v n w)
unfolding write_bits
write_bits-Writes w valid v zero lt = unfold to_bits in Writes-refl valid
write_bits-Writes w valid v (suc m) lt =
    let n : ℕ = suc m in
    let some_bits : (suc m == 0) ≡ false = ground arith in
    let cut : v % 2 ^ n < 2 ^ n = mod-lt v (pow-pos n) in
    let free : ℕ = 64 - w.nbit in
    rw (some_bits, masked v n lt, sym (to_bits_mod n v))
      (elim (Bool-cases (ltb n free)) [
        | inl room ↦
            let r = ltb→lt n free room in
            rw room (write_within w valid (v % 2 ^ n) n (free - n) cut (omega arith) (omega arith))
        | inr over ↦
            let o = ltb→ge n free over in
            let e : free + (n - free) ≡ n = omega arith in
            rw over (
              rw e at (
                write_over-Writes w valid (v % 2 ^ n) free (n - free) (rw e cut) (omega arith)
                  (omega arith)))
      ])

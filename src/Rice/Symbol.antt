-- ===== src/Rice/Symbol.antt =====
-- One residual: the quotient and remainder of a folded value.
use go_flac.Prelude.{
  ℕ, ◌+◌, ◌-◌, ◌*◌, ◌/◌, ◌%◌, ◌^◌, ◌≤◌, ◌<◌, ◌≡◌, refl, sym, inl, inr, [], ◌++◌, append-nil,
  length-append, leb, Bool-cases, arith, bit_or, leb→le,
}
use go_flac.Prelude.Pow.{pow-pos, pow-lt, div-lt-pow}
use go_flac.Prelude.Word.{shl64}
use go_flac.Prelude.Bits.{or_fields}
use native.Mathlib.Nat.{div-add-mod', mod-lt, mod-eq_of_lt, div-eq_of_lt}
use go_flac.Bitstream.{to_bits, unary_bits, to_bits_fields, to_bits-one, length-to_bits}
use go_flac.Bitio.Writer.{write_unary}
use go_flac.Bitio.Writer.Contents.{Writes-trans, write_bits-Writes, masked}
use go_flac.Bitio.Writer.Flush.{write_unary-Writes}
use go_flac.Bitio.Reader.{M, ◌>>=◌, pure}
use go_flac.Bitio.Reader.Read.{read_bits, read_unary}
use go_flac.Bitio.Reader.Reads.{Reads, Reads-read_unary, Reads-bind, Reads-pure, Reads-read_bits}
use go_flac.Bitio.Reader.Unary.{length-unary_bits}
use go_flac.Bitio.RoundTrip.{RoundTrip, Appends}
use go_flac.Rice.{write_folded, read_symbol, high_bits}

-- The stop bit and the remainder in one field.
joined :
    (k q rem : ℕ) → rem < 2 ^ k → to_bits (q + 1 + k) (2 ^ k + rem) ≡ unary_bits q ++ to_bits k rem
joined k q rem lt =
    let e : 2 ^ k + rem ≡ 1 * 2 ^ k + rem = omega arith in
    rw (e, to_bits_fields (q + 1) k 1 rem lt, to_bits-one q) refl

one_shifted : (k : ℕ) → k < 64 → shl64 1 k ≡ 2 ^ k
one_shifted k lt = omega (arith, mod-eq_of_lt (pow-lt k 64 lt))

symbol_Reads :
    (k q rem : ℕ)
    → k ≤ 30
    → rem < 2 ^ k
    → Reads (read_symbol k) (unary_bits q ++ (to_bits k rem ++ [])) (q, rem)
unfolding read_symbol
symbol_Reads k q rem le lt =
    let pair : ℕ → M (ℕ × ℕ) = λ r. pure (q, r) in
    Reads-bind read_unary (λ a. read_bits k >>= λ r. pure (a, r)) (unary_bits q)
      (to_bits k rem ++ []) q (q, rem) (Reads-read_unary q)
      (Reads-bind (read_bits k) pair (to_bits k rem) [] rem (q, rem)
        (Reads-read_bits k rem (omega arith) lt) (Reads-pure (q, rem)))

-- Each of the two forms that `WritePlanned` chooses from.
folded_Appends :
    (k u : ℕ)
    → k ≤ 30
    → Appends (write_folded k u) (unary_bits (u / 2 ^ k) ++ to_bits k (u % 2 ^ k))
unfolding write_folded
folded_Appends k u le w valid =
    let q : ℕ = u / 2 ^ k in
    let rem : ℕ = u % 2 ^ k in
    let lt : rem < 2 ^ k = mod-lt u (pow-pos k) in
    let packed : bit_or (2 ^ k) rem ≡ 2 ^ k + rem =
      let e : 1 * 2 ^ k ≡ 2 ^ k = omega arith in rw e at (or_fields k 1 rem lt) in
    rw (masked u k (omega arith), one_shifted k (omega arith))
      (elim (Bool-cases (leb q (56 - k))) [
        | inl short ↦
            let small = leb→le q (56 - k) short in
            rw (short, packed, sym (joined k q rem lt))
              (write_bits-Writes w valid (2 ^ k + rem) (q + 1 + k) (omega arith))
        | inr long ↦
            let unary = write_unary-Writes w valid q in
            rw long (
              Writes-trans unary
                (write_bits-Writes (write_unary q w) unary.valid rem k (omega arith)))
      ])

pub RoundTrip-write_folded :
    (k u : ℕ)
    → k ≤ 30
    → RoundTrip (u / 2 ^ k + 1 + k) (write_folded k u) (read_symbol k) (u / 2 ^ k, u % 2 ^ k)
RoundTrip-write_folded k u le =
    let q : ℕ = u / 2 ^ k in
    let rem : ℕ = u % 2 ^ k in
    let lt : rem < 2 ^ k = mod-lt u (pow-pos k) in
    record {
      bits = unary_bits q ++ to_bits k rem;
      width =
          rw
            (
              length-append (unary_bits q) (to_bits k rem),
              length-unary_bits q,
              length-to_bits k rem,
            )
            refl;
      appends = folded_Appends k u le;
      reads = rw (append-nil (to_bits k rem)) at (symbol_Reads k q rem le lt);
    }

-- Putting the folded value together again, within 32 bits.
pub joined_value :
    (k u : ℕ)
    → k ≤ 30
    → u < 2 ^ 32
    → (bit_or (shl64 (u / 2 ^ k) k) (u % 2 ^ k) ≡ u) × (high_bits (u / 2 ^ k) k ≡ 0)
unfolding high_bits
joined_value k u le lt =
    let parts : u / 2 ^ k * 2 ^ k + u % 2 ^ k ≡ u = div-add-mod' u (2 ^ k) in
    let kept : shl64 (u / 2 ^ k) k ≡ u / 2 ^ k * 2 ^ k = mod-eq_of_lt (omega arith) in
    let split : 32 - k + k ≡ 32 = omega arith in
    (
      rw (kept, or_fields k (u / 2 ^ k) (u % 2 ^ k) (mod-lt u (pow-pos k))) parts,
      div-eq_of_lt (div-lt-pow u (32 - k) k (rw split lt)),
    )

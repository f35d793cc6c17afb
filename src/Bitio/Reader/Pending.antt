-- ===== src/Bitio/Reader/Pending.antt =====
-- The abstract state of a `Reader`: the bits that it has still to serve, and the error that they
-- end with.
use go_flac.Prelude.{
  ℕ, ◌+◌, ◌-◌, ◌*◌, ◌/◌, ◌%◌, ◌^◌, ◌≤◌, ◌<◌, ◌≡◌, refl, sym, ap, ◌∙◌, List, [], ◌++◌, append_assoc,
  length, ltb, arith, none, some, drop, Bool-cases, inl, inr, ◌&&◌, get_or, drop-get_or,
}
use go_flac.Prelude.Word.{shl64, shr, byte}
use go_flac.Errors.{Error}
use go_flac.Bitstream.{to_bits, bytes_bits, to_bits-add, to_bits_mod, to_bits_fields}
use go_flac.Bitio.Register.{Holds, value_of, top_bits, shifted_out, staged}
use go_flac.Bitio.Source.{delivered, ending}
use go_flac.Bitio.Reader.{Reader, consumed_bytes, emit_taps, tap_consumed}
use go_flac.Bitio.Reader.Read.{consume, load_byte}

-- The valid bits of the register.
unfoldable pub held : Reader → List ℕ
held b = to_bits b.nbits (b.acc / 2 ^ (64 - b.nbits))

-- The bytes that the source has still to deliver; after an error it is not read again.
unfoldable pub coming : Reader → List ℕ
coming b = elim b.error [ none ↦ delivered 99 b.src | some _ ↦ [] ]

unfoldable pub pending : Reader → List ℕ
pending b = held b ++ (bytes_bits (drop b.r b.buf) ++ bytes_bits (coming b))

-- The error that the reader reports once no bit is left.
unfoldable pub final_error : Reader → Error
final_error b = elim b.error [ none ↦ ending 99 b.src | some e ↦ e ]

-- The register is well formed, the cursor lies in the buffer, and a block is large enough for the
-- tail that a refill keeps.
pub record IsValid (b : Reader) : Type 0 where
  pub value : ℕ
  pub holds : Holds b.acc b.nbits value
  pub r_le : b.r ≤ length b.buf
  pub size_ge : 16 ≤ b.size

-- `b'` serves the bits and the error that `b` serves, less the bits `bs`.
pub record Takes (b : Reader) (bs : List ℕ) (b' : Reader) : Type 0 where
  pub valid : IsValid b'
  pub rest : pending b ≡ bs ++ pending b'
  pub same_end : final_error b' ≡ final_error b

pub Takes-refl : {b : Reader} → IsValid b → Takes b [] b
Takes-refl v = record { valid = v; rest = refl; same_end = refl }

pub Takes-trans :
    {b b' b'' : Reader} {bs cs : List ℕ} → Takes b bs b' → Takes b' cs b'' → Takes b (bs ++ cs) b''
Takes-trans {b'' = b''} {bs = bs} {cs = cs} p q = record {
  valid = q.valid;
  rest = p.rest ∙ ap (λ (t : List ℕ). bs ++ t) q.rest ∙ sym (append_assoc bs cs (pending b''));
  same_end = q.same_end ∙ p.same_end;
}

pub held_value : {b : Reader} (v : IsValid b) → held b ≡ to_bits b.nbits v.value
unfolding held
held_value {b} v = ap (to_bits b.nbits) (value_of v.holds)

-- The tap sees bytes, and changes nothing that is served.
pub tap_consumed-Takes : {b c : Reader} {bs : List ℕ} → Takes b bs c → Takes b bs (tap_consumed c)
unfolding tap_consumed emit_taps pending held coming final_error
tap_consumed-Takes {c = c} t = elim (Bool-cases (c.tapping && ltb c.tap_cur (consumed_bytes c))) [
  | inl e ↦ rw e (record {
    valid = record {
      value = t.valid.value;
      holds = t.valid.holds;
      r_le = t.valid.r_le;
      size_ge = t.valid.size_ge;
    };
    rest = t.rest;
    same_end = t.same_end;
  })
  | inr e ↦ rw e t
]

-- The first `n` bits of the register.
pub consume-Takes :
    (n : ℕ) {b : Reader} (v : IsValid b)
    → n ≤ b.nbits
    → Takes b (to_bits n (shr b.acc (64 - n))) (consume n b)
unfolding consume
consume-Takes n {b} v le =
    let m : ℕ = b.nbits - n in
    let whole : b.nbits ≡ n + m = omega arith in
    let b' : Reader = record b { acc = shl64 b.acc n; nbits = b.nbits - n } in
    let v' : IsValid b' = record {
      value = v.value % 2 ^ m;
      holds = shifted_out n v.holds le;
      r_le = v.r_le;
      size_ge = v.size_ge;
    } in
    let split : held b ≡ to_bits n (shr b.acc (64 - n)) ++ held b' =
      rw (held_value v, held_value v', to_bits_mod m v.value, top_bits n v.holds le)
        (ap (λ (k : ℕ). to_bits k v.value) whole ∙ to_bits-add n m v.value) in
    tap_consumed-Takes (record {
      valid = v';
      rest =
          unfold pending coming in
          (ap (λ (t : List ℕ). t ++ (bytes_bits (drop b.r b.buf) ++ bytes_bits (coming b))) split
            ∙ append_assoc (to_bits n (shr b.acc (64 - n))) (held b') _);
      same_end = unfold final_error in refl;
    })

-- A loaded byte moves from the buffer into the register.
pub load_byte-Takes :
    {b : Reader} (v : IsValid b) → b.nbits ≤ 56 → b.r < length b.buf → Takes b [] (load_byte b)
unfolding load_byte
load_byte-Takes {b} v le lt =
    let x : ℕ = get_or b.buf b.r 0 in
    let v' : IsValid (load_byte b) = record {
      value = v.value * 2 ^ 8 + byte x;
      holds = staged (byte x) 8 (56 - b.nbits) v.holds (omega arith) (omega arith);
      r_le = omega arith;
      size_ge = v.size_ge;
    } in
    record {
      valid = v';
      rest =
          unfold pending coming bytes_bits in
          (rw
            (
              held_value v,
              held_value v',
              to_bits_fields b.nbits 8 v.value (byte x) (omega arith),
              drop-get_or b.buf b.r 0 lt,
            )
            (simp (append_assoc, to_bits_mod 8 x)));
      same_end = unfold final_error in refl;
    }

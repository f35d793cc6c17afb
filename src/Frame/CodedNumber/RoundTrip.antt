-- ===== src/Frame/CodedNumber/RoundTrip.antt =====
-- A coded number reads back as the number that was written, up to 36 bits.
use go_flac.Prelude.{
  ℕ, zero, suc, ◌+◌, ◌-◌, ◌*◌, ◌/◌, ◌%◌, ◌^◌, ◌≤◌, ◌<◌, ◌≡◌, ap, ◌∙◌, true, false, Bool-cases, inl,
  inr, ltb, ltb→lt, ◌==◌, if◌then◌else◌, bit_and, bit_or, arith,
}
use go_flac.Prelude.Word.{shl64, shr, byte}
use go_flac.Prelude.Pow.{div_pow-add, pow_mono}
use go_flac.Prelude.Bits.{or_fields, and_mask}
use go_flac.Bitio.RoundTrip.{
  RoundTrip, RoundTrip-write_bits, RoundTrip-write_eq, RoundTrip-then, RoundTrip-end,
  RoundTrip-done, RoundTrip-width,
}
use go_flac.Frame.CodedNumber.{
  code_length, with_lead, write_continuation, write_utf8, read_continuation, read_tail,
  read_coded_number,
}
use go_flac.Frame.CodedNumber.Lead.{IsLead, continuation_mark, with_lead-IsLead}
use native.Mathlib.Nat.{div-le_self}

-- A continuation byte: 10 and six bits.
abbrev six_bits : ℕ → ℕ → ℕ
six_bits v i = shr v (6 * i) % 64

continuation_byte :
    (x : ℕ)
    → (bit_or 0x80 (byte (bit_and x 0x3f)) ≡ 0x80 + x % 64)
      × (bit_and (0x80 + x % 64) 0x3f ≡ x % 64)
continuation_byte x =
    let cut : bit_and x 0x3f ≡ x % 64 = and_mask 6 x in
    let small : byte (bit_and x 0x3f) ≡ x % 64 = rw cut (omega arith) in
    (rw small (or_fields 6 2 (x % 64) (omega arith)), and_mask 6 (0x80 + x % 64) ∙ omega arith)

module _ (v : ℕ) (fits : v < 2 ^ 36) where
  -- The loop, once the bits above `6 * k` are read.
  RoundTrip-continuation :
      (k : ℕ) → RoundTrip (k * 8) (write_continuation k v) (read_continuation k (shr v (6 * k))) v
  unfolding write_continuation read_continuation
  RoundTrip-continuation zero = RoundTrip-done (shr v (6 * 0)) (omega arith)
  RoundTrip-continuation (suc i) =
      let s : ℕ = six_bits v i in
      let (written, back) = continuation_byte (shr v (6 * i)) in
      let e : 6 * suc i ≡ 6 + 6 * i = omega arith in
      let high : shr v (6 * suc i) ≡ shr v (6 * i) / 64 =
        ap (λ (k : ℕ). v / 2 ^ k) e ∙ div_pow-add v 6 (6 * i) in
      let shrunk : shr v (6 * i) ≤ v = div-le_self v (2 ^ (6 * i)) in
      let shifted : shl64 (shr v (6 * suc i)) 6 ≡ shr v (6 * i) / 64 * 2 ^ 6 =
        rw high (omega arith) in
      let joined : bit_or (shl64 (shr v (6 * suc i)) 6) (bit_and (0x80 + s) 0x3f) ≡ shr v (6 * i) =
        rw (shifted, back) (or_fields 6 (shr v (6 * i) / 64) s (omega arith) ∙ omega arith) in
      let is_marked : (bit_and (0x80 + s) 0xc0 == 0x80) ≡ true =
        continuation_mark s (omega arith) in
      RoundTrip-width {m = 8 + i * 8} (omega arith) (
        RoundTrip-then {e' = write_continuation i v} _
          (RoundTrip-write_eq (0x80 + s) 8 written (omega arith) (omega arith))
          (rw (is_marked, joined) (RoundTrip-continuation i)))

-- The length chosen leaves `7 - n` bits at most for the first byte.
code_length-fits :
    (v : ℕ)
    → v < 2 ^ 36
    → (2 ≤ code_length v)
      × (code_length v ≤ 7)
      × (shr v (6 * (code_length v - 1)) < 2 ^ (7 - code_length v))
unfolding code_length
code_length-fits v h = ground arith

-- The bits that the code of `v` takes.
unfoldable pub coded_width : ℕ → ℕ
coded_width v = if ltb v 0x80 then 8 else code_length v * 8

long_RoundTrip :
    (v : ℕ)
    → v < 2 ^ 36
    → ltb v 0x80 ≡ false
    → RoundTrip (coded_width v) (write_utf8 v) read_coded_number v
unfolding write_utf8 read_coded_number coded_width read_tail
long_RoundTrip v h long =
    let n : ℕ = code_length v in
    let (ge, le, hi_lt) = code_length-fits v h in
    let hi : ℕ = shr v (6 * (n - 1)) in
    let room : 2 ^ (7 - n) ≤ 2 ^ 7 = pow_mono (7 - n) 7 (omega arith) in
    let whole : byte hi ≡ hi = omega arith in
    let first : IsLead n hi (with_lead n hi) = with_lead-IsLead n hi ge le hi_lt in
    rw (long, whole)
      (RoundTrip-width {m = 8 + (n - 1) * 8} (omega arith) (
        RoundTrip-then {e' = write_continuation (n - 1) v} _
          (RoundTrip-write_bits (with_lead n hi) 8 (omega arith) first.small)
          (rw (first.high, first.length_eq, first.bits_eq) (RoundTrip-continuation v h (n - 1)))))

-- Every number below 2 ^ 36 reads back from the code that `writeUTF8` writes, whatever follows it
-- and whatever was written before.
pub read-write_coded_number :
    (v : ℕ) → v < 2 ^ 36 → RoundTrip (coded_width v) (write_utf8 v) read_coded_number v
unfolding write_utf8 read_coded_number coded_width
read-write_coded_number v h = elim (Bool-cases (ltb v 0x80)) [
  | inl short ↦
      let lt = ltb→lt v 0x80 short in
      rw short (
        RoundTrip-then {n = 0} {e' = λ w. w} _
          (RoundTrip-write_bits v 8 (omega arith) (omega arith)) (rw short (RoundTrip-end v)))
  | inr long ↦ long_RoundTrip v h long
]

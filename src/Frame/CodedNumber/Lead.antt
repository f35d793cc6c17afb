-- ===== src/Frame/CodedNumber/Lead.antt =====
-- The first byte of a coded number, by tables over the bytes.
use go_flac.Prelude.{
  ℕ, zero, suc, ◌+◌, ◌-◌, ◌^◌, ◌≤◌, ◌<◌, ◌≡◌, refl, Bool, true, false, ◌&&◌, Option, none, some,
  ltb, ◌==◌, if◌then◌else◌, bit_and, arith,
}
use go_flac.Prelude.Word.{shr}
use go_flac.Frame.CodedNumber.{with_lead, lead_length}

-- Every value below `n` passes the test.
all_below : ℕ → (ℕ → Bool) → Bool
all_below zero p = true
all_below (suc n) p = p n && all_below n p

all_below-lt : (n : ℕ) (p : ℕ → Bool) (x : ℕ) → all_below n p ≡ true → x < n → p x ≡ true
unfolding all_below
all_below-lt zero p x h lt = absurd (omega arith)
all_below-lt (suc n) p x h lt = ground (arith, all_below-lt n p x)

is_some_of : ℕ → Option ℕ → Bool
is_some_of n none = false
is_some_of n (some m) = m == n

is_some_of-eq : (n : ℕ) (o : Option ℕ) → is_some_of n o ≡ true → o ≡ some n
unfolding is_some_of
is_some_of-eq n none h = cc
is_some_of-eq n (some m) h = ground arith

-- What reading makes of a first byte with the `hi` bits of a code of `n` bytes.
lead_test : ℕ → ℕ → Bool
unfolding lead_length is_some_of
lead_test n hi =
    ltb (with_lead n hi) 256
    && (not_low
        && (is_some_of n (lead_length (with_lead n hi))
            && (bit_and (with_lead n hi) (shr 0x7f n) == hi)))
  where
    not_low : Bool
    not_low = if ltb (with_lead n hi) 0x80 then false else true

-- A first byte of `n` ones, a zero and the bits `hi` is a byte from 0x80 on, tells `n`, and gives
-- `hi` back under its mask.
pub record IsLead (n hi b0 : ℕ) : Type 0 where
  pub small : b0 < 256
  pub high : ltb b0 0x80 ≡ false
  pub length_eq : lead_length b0 ≡ some n
  pub bits_eq : bit_and b0 (shr 0x7f n) ≡ hi

lead_test-IsLead : (n hi : ℕ) → lead_test n hi ≡ true → IsLead n hi (with_lead n hi)
unfolding lead_test
lead_test-IsLead n hi h = record {
  small = ground arith;
  high = ground arith;
  length_eq = is_some_of-eq n (lead_length (with_lead n hi)) (ground arith);
  bits_eq = ground arith;
}

with_lead-IsLead_below :
    (n room : ℕ) (hi : ℕ)
    → all_below room (lead_test n) ≡ true
    → hi < room
    → IsLead n hi (with_lead n hi)
with_lead-IsLead_below n room hi e lt =
    lead_test-IsLead n hi (all_below-lt room (lead_test n) hi e lt)

pub with_lead-IsLead : (n hi : ℕ) → 2 ≤ n → n ≤ 7 → hi < 2 ^ (7 - n) → IsLead n hi (with_lead n hi)
unfolding all_below lead_test
with_lead-IsLead zero hi ge le lt = absurd (omega arith)
with_lead-IsLead (suc zero) hi ge le lt = absurd (omega arith)
with_lead-IsLead (suc (suc zero)) hi ge le lt = with_lead-IsLead_below 2 32 hi refl lt
with_lead-IsLead (suc (suc (suc zero))) hi ge le lt = with_lead-IsLead_below 3 16 hi refl lt
with_lead-IsLead (suc (suc (suc (suc zero)))) hi ge le lt = with_lead-IsLead_below 4 8 hi refl lt
with_lead-IsLead (suc (suc (suc (suc (suc zero))))) hi ge le lt =
    with_lead-IsLead_below 5 4 hi refl lt
with_lead-IsLead (suc (suc (suc (suc (suc (suc zero)))))) hi ge le lt =
    with_lead-IsLead_below 6 2 hi refl lt
with_lead-IsLead (suc (suc (suc (suc (suc (suc (suc zero))))))) hi ge le lt =
    with_lead-IsLead_below 7 1 hi refl lt
with_lead-IsLead (suc (suc (suc (suc (suc (suc (suc (suc n)))))))) hi ge le lt =
    absurd (omega arith)

-- A continuation byte passes the reader's test.
pub continuation_mark : (s : ℕ) → s < 64 → (bit_and (0x80 + s) 0xc0 == 0x80) ≡ true
unfolding all_below
continuation_mark s h = all_below-lt 64 (λ t. bit_and (0x80 + t) 0xc0 == 0x80) s refl h

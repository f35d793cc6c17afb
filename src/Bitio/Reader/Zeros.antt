-- ===== src/Bitio/Reader/Zeros.antt =====
-- `bits.LeadingZeros64` on a register, and where the stop bit of a unary code stands.
use go_flac.Prelude.{
  ℕ, zero, suc, ◌+◌, ◌-◌, ◌*◌, ◌^◌, ◌≤◌, ◌<◌, ◌≡◌, refl, sym, ap, ◌∙◌, List, [], ◌∷◌, ◌++◌,
  append_assoc, length, length-append, arith, drop, replicate, Option-cases, inl, inr,
  if◌then◌else◌, ◌==◌, length-drop, get_or,
}
use mathlib.Core.Path.{ap₂}
use go_flac.Prelude.Pow.{pow-pos}
use go_flac.Bitstream.{
  to_bits, bytes_bits, to_bits_fields, unary_bits, to_bits-zero, length-bytes_bits,
}
use go_flac.Bitio.Source.{Source, chunk, finish, delivered, size}
use go_flac.Bitio.Register.{Holds}
use go_flac.Bitio.Reader.{Reader}
use go_flac.Bitio.Reader.Read.{leading_zeros}
use go_flac.Bitio.Reader.Pending.{held, coming, pending, IsValid, held_value}
use go_flac.Bitio.Reader.Refill.{Filled}
use go_flac.Bitio.Reader.Serve.{pending_held, length-held}

-- The zeros at the front of a list of bits.
zeros_of : List ℕ → ℕ
zeros_of [] = 0
zeros_of (b ∷ bs) = if b == 1 then 0 else suc (zeros_of bs)

leading_zeros_lem : (k x : ℕ) → leading_zeros k x ≡ zeros_of (to_bits k x)
unfolding leading_zeros zeros_of to_bits
leading_zeros_lem zero x = refl
leading_zeros_lem (suc k) x = rw (leading_zeros_lem k x)

zeros_of-one : (q : ℕ) (bs : List ℕ) → zeros_of (replicate q 0 ++ (1 ∷ bs)) ≡ q
unfolding zeros_of
zeros_of-one zero bs = refl
zeros_of-one (suc q) bs = ap suc (zeros_of-one q bs)

zeros_of-all : (n : ℕ) (bs : List ℕ) → n ≤ zeros_of (replicate n 0 ++ bs)
unfolding zeros_of
zeros_of-all zero bs = omega arith
zeros_of-all (suc n) bs = omega (arith, zeros_of-all n bs)

-- The register as 64 bits.
register_bits : {acc b p : ℕ} → Holds acc b p → to_bits 64 acc ≡ to_bits b p ++ replicate (64 - b) 0
register_bits {acc} {b} {p} h =
    let narrow = h.narrow in
    let e : 64 ≡ b + (64 - b) = omega arith in
    let padded : acc ≡ p * 2 ^ (64 - b) + 0 = omega (arith, h.aligned) in
    ap (to_bits 64) padded
    ∙ ap (λ (k : ℕ). to_bits k (p * 2 ^ (64 - b) + 0)) e
    ∙ to_bits_fields b (64 - b) p 0 (pow-pos (64 - b))
    ∙ ap (λ (t : List ℕ). to_bits b p ++ t) (to_bits-zero (64 - b))

-- The stop bit stands within the first list, or behind it.
stop_within :
    (xs ys : List ℕ) (q : ℕ) (rest : List ℕ)
    → xs ++ ys ≡ replicate q 0 ++ (1 ∷ rest)
    → q < length xs
    → (zs : List ℕ) × (xs ≡ replicate q 0 ++ (1 ∷ zs))
stop_within [] ys q rest e h = absurd (omega arith)
stop_within (x ∷ xs) ys zero rest e h =
    (xs, ap (λ (t : ℕ). t ∷ xs) (ap (λ (t : List ℕ). get_or t 0 0) e))
stop_within (x ∷ xs) ys (suc q) rest e h =
    let (zs, same) = stop_within xs ys q rest (cc e) (omega arith) in
    (zs, ap₂ ◌∷◌ (ap (λ (t : List ℕ). get_or t 0 0) e) same)

pub stop_behind :
    (xs ys : List ℕ) (q : ℕ) (rest : List ℕ)
    → xs ++ ys ≡ replicate q 0 ++ (1 ∷ rest)
    → length xs ≤ q
    → (xs ≡ replicate (length xs) 0) × (ys ≡ replicate (q - length xs) 0 ++ (1 ∷ rest))
stop_behind [] ys q rest e h = let s : q - 0 ≡ q = omega arith in (refl, rw s e)
stop_behind (x ∷ xs) ys zero rest e h = absurd (omega arith)
stop_behind (x ∷ xs) ys (suc q) rest e h =
    let (zs, tail) = stop_behind xs ys q rest (cc e) (omega arith) in
    let s : suc q - suc (length xs) ≡ q - length xs = omega arith in
    (ap₂ ◌∷◌ (ap (λ (t : List ℕ). get_or t 0 0) e) zs, rw s tail)

length-delivered : (k : ℕ) (s : Source) → length (delivered k s) ≤ size s
unfolding delivered size
length-delivered k (finish bs e) = omega arith
length-delivered zero (chunk [] s) = omega arith
length-delivered (suc k) (chunk [] s) = omega (arith, length-delivered k s)
length-delivered k (chunk (b ∷ bs) s) =
    omega (arith, length-append (b ∷ bs) (delivered 99 s), length-delivered 99 s)

length-coming : (b : Reader) → length (coming b) ≤ size b.src
unfolding coming
length-coming b = elim (Option-cases b.error) [
  | inl e ↦ rw e (length-delivered 99 b.src)
  | inr (x, e) ↦ rw e (omega arith)
]

pub length-pending : (b : Reader) → length (pending b) ≤ b.nbits + (length b.buf + size b.src) * 8
unfolding pending
length-pending b = rw length-append (
    rw length-append (
      omega (
        arith,
        length-held b,
        length-bytes_bits (drop b.r b.buf),
        length-bytes_bits (coming b),
        length-drop b.r b.buf,
        length-coming b,
      )))

-- A filled reader with a bit left has one in its register.
pub Filled-pos : (f : Reader) → Filled f → 0 < length (pending f) → 0 < f.nbits
Filled-pos f (inl full) h = omega arith
Filled-pos f (inr (le, (e, failed))) h =
    omega (arith, length-held f, rw (pending_held f le failed) at h)

-- Where the stop bit stands in the register, or behind it.
module _ {f : Reader} (v : IsValid f) (q : ℕ) (rest : List ℕ)
    (front : pending f ≡ unary_bits q ++ rest) where
  pub front' :
      held f ++ (bytes_bits (drop f.r f.buf) ++ bytes_bits (coming f)) ≡ replicate q 0 ++ (1 ∷ rest)
  unfolding pending unary_bits
  front' = front ∙ append_assoc (replicate q 0) (1 ∷ []) rest

  lz : leading_zeros 64 f.acc ≡ zeros_of (held f ++ replicate (64 - f.nbits) 0)
  lz =
      leading_zeros_lem 64 f.acc
      ∙ ap zeros_of (
          register_bits v.holds
          ∙ ap (λ (t : List ℕ). t ++ replicate (64 - f.nbits) 0) (sym (held_value v)))

  pub lz_within : q < f.nbits → leading_zeros 64 f.acc ≡ q
  lz_within lt =
      let (zs, same) = stop_within (held f) _ q rest front' (omega (arith, length-held f)) in
      lz
      ∙ ap (λ (t : List ℕ). zeros_of (t ++ replicate (64 - f.nbits) 0)) same
      ∙ ap zeros_of (append_assoc (replicate q 0) (1 ∷ zs) (replicate (64 - f.nbits) 0))
      ∙ zeros_of-one q (zs ++ replicate (64 - f.nbits) 0)

  pub lz_behind : f.nbits ≤ q → f.nbits ≤ leading_zeros 64 f.acc
  lz_behind le =
      let (zs, tail) = stop_behind (held f) _ q rest front' (omega (arith, length-held f)) in
      let n = length-held f in
      let all : held f ≡ replicate f.nbits 0 = zs ∙ ap (λ (k : ℕ). replicate k 0) n in
      rw (lz, all) (zeros_of-all f.nbits (replicate (64 - f.nbits) 0))

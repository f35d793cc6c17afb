-- ===== src/Bitstream.antt =====
-- The abstract view of a bit-packed buffer: a list of bits, most significant first. The writer
-- (internal/bitio/writer.go) and the reader (internal/bitio/reader.go) are specified by it.
use go_flac.Prelude.{
  ℕ, zero, suc, ◌+◌, ◌*◌, ◌/◌, ◌%◌, ◌^◌, ◌<◌, ◌≡◌, refl, sym, ap, ◌∙◌, arith, List, [], ◌∷◌, ◌++◌,
  append_assoc, append-nil, replicate, length, length-append,
}
use go_flac.Prelude.Pow.{pow-pos, two-pow-suc, div_pow-add, fields_div, mod_top}
use native.Mathlib.Nat.{mul-add-div_right, zero-div, div-add-mod'}

-- The low `n` bits of `v`.
unfoldable pub to_bits : ℕ → ℕ → List ℕ
to_bits zero v = []
to_bits (suc n) v = (v / 2 ^ n % 2) ∷ to_bits n v

-- The number that a list of bits stands for.
unfoldable pub of_bits : List ℕ → ℕ
of_bits [] = 0
of_bits (b ∷ bs) = b * 2 ^ length bs + of_bits bs

unfoldable pub bytes_bits : List ℕ → List ℕ
bytes_bits [] = []
bytes_bits (b ∷ bs) = to_bits 8 b ++ bytes_bits bs

-- `k` bytes of a number, big-endian: what `encoding/binary` writes and reads.
unfoldable pub be_bytes : ℕ → ℕ → List ℕ
be_bytes zero v = []
be_bytes (suc k) v = (v / 2 ^ (k * 8) % 256) ∷ be_bytes k v

pub length-to_bits : (n v : ℕ) → length (to_bits n v) ≡ n
unfolding to_bits
length-to_bits zero v = refl
length-to_bits (suc n) v = ap suc (length-to_bits n v)

-- A field of `m + n` bits is its high field, then its low one.
pub to_bits-add : (m n v : ℕ) → to_bits (m + n) v ≡ to_bits m (v / 2 ^ n) ++ to_bits n v
unfolding to_bits
to_bits-add zero n v = let e : 0 + n ≡ n = omega arith in rw e
to_bits-add (suc m) n v =
    let e : suc m + n ≡ suc (m + n) = omega arith in rw (e, div_pow-add v m n, to_bits-add m n v)

-- Bits above the field do not matter.
pub to_bits_high : (n q r : ℕ) → to_bits n (q * 2 ^ n + r) ≡ to_bits n r
unfolding to_bits
to_bits_high zero q r = refl
to_bits_high (suc n) q r =
    let twice : q * 2 ^ suc n ≡ q * 2 * 2 ^ n =
      omega (arith, ap (λ (t : ℕ). q * t) (two-pow-suc n)) in
    rw (twice, mul-add-div_right (pow-pos n) (q * 2) r, to_bits_high n (q * 2) r)
      (ap (λ (t : ℕ). t ∷ to_bits n r) (omega arith))

pub to_bits_mod : (n v : ℕ) → to_bits n (v % 2 ^ n) ≡ to_bits n v
to_bits_mod n v =
    sym (to_bits_high n (v / 2 ^ n) (v % 2 ^ n)) ∙ ap (to_bits n) (div-add-mod' v (2 ^ n))

-- Two fields packed into one number.
pub to_bits_fields :
    (m n q r : ℕ) → r < 2 ^ n → to_bits (m + n) (q * 2 ^ n + r) ≡ to_bits m q ++ to_bits n r
to_bits_fields m n q r h =
    rw (to_bits-add m n (q * 2 ^ n + r), fields_div q r n h, to_bits_high n q r)

pub bytes_bits-append : (xs ys : List ℕ) → bytes_bits (xs ++ ys) ≡ bytes_bits xs ++ bytes_bits ys
unfolding bytes_bits
bytes_bits-append [] ys = refl
bytes_bits-append (x ∷ xs) ys =
    rw (bytes_bits-append xs ys) (sym (append_assoc (to_bits 8 x) (bytes_bits xs) (bytes_bits ys)))

pub length-bytes_bits : (xs : List ℕ) → length (bytes_bits xs) ≡ length xs * 8
unfolding bytes_bits
length-bytes_bits [] = refl
length-bytes_bits (x ∷ xs) =
    rw length-append (omega (arith, length-to_bits 8 x, length-bytes_bits xs))

pub bytes_bits-be_bytes : (k v : ℕ) → bytes_bits (be_bytes k v) ≡ to_bits (k * 8) v
unfolding bytes_bits be_bytes
bytes_bits-be_bytes zero v = unfold to_bits in refl
bytes_bits-be_bytes (suc k) v =
    let e : suc k * 8 ≡ 8 + k * 8 = omega arith in
    rw (e, to_bits-add 8 (k * 8) v, to_bits_mod 8 (v / 2 ^ (k * 8)), bytes_bits-be_bytes k v)

-- Reading a field back gives the value cut to its width.
pub of_bits-to_bits : (n v : ℕ) → of_bits (to_bits n v) ≡ v % 2 ^ n
unfolding of_bits to_bits
of_bits-to_bits zero v = omega arith
of_bits-to_bits (suc n) v = rw (length-to_bits n v, of_bits-to_bits n v) (sym (mod_top v n))

pub bytes_bits_byte : (v : ℕ) → bytes_bits ((v % 256) ∷ []) ≡ to_bits 8 v
unfolding bytes_bits
bytes_bits_byte v = append-nil (to_bits 8 (v % 256)) ∙ to_bits_mod 8 v

-- `q` zeros and a one.
unfoldable pub unary_bits : ℕ → List ℕ
unary_bits q = replicate q 0 ++ (1 ∷ [])

pub to_bits-zero : (n : ℕ) → to_bits n 0 ≡ replicate n 0
unfolding to_bits
to_bits-zero zero = refl
to_bits-zero (suc n) = rw (zero-div (2 ^ n), to_bits-zero n)

pub replicate-add : (m n : ℕ) (a : ℕ) → replicate (m + n) a ≡ replicate m a ++ replicate n a
replicate-add zero n a = let e : 0 + n ≡ n = omega arith in rw e
replicate-add (suc m) n a =
    let e : suc m + n ≡ suc (m + n) = omega arith in rw (e, replicate-add m n a)

pub to_bits-one : (q : ℕ) → to_bits (q + 1) 1 ≡ unary_bits q
unfolding unary_bits
to_bits-one q = rw (to_bits-add q 1 1) (
    ap (λ (t : List ℕ). t ++ to_bits 1 1) (to_bits-zero q)
    ∙ ap (λ (t : List ℕ). replicate q 0 ++ t) (unfold to_bits in refl))

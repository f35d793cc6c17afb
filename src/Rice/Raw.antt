-- ===== src/Rice/Raw.antt =====
-- The escaped residuals and the warm-up samples: signed fields, written and read back
-- (internal/rice/encode.go, internal/rice/rice.go).
use go_flac.Prelude.{
  ℕ, zero, suc, ◌+◌, ◌-◌, ◌*◌, ◌/◌, ◌%◌, ◌^◌, ◌≤◌, ◌<◌, ◌≡◌, refl, ap, ◌∙◌, ◌⊎◌, inl, inr, [], ◌++◌,
  append-nil, true, false, ltb, ◌==◌, if◌then◌else◌, Bool-cases, arith, lt→ltb, ge→ltb, ltb→lt,
  ltb→ge,
}
use go_flac.Prelude.Pow.{
  pow-pos, pow_mono, two-pow-suc, pow_split, shifted-lt, fields_mod, fields_div,
}
use go_flac.Prelude.Word.{shl64}
use native.Mathlib.Nat.{mul-le-mul_right, mod-lt, mod-eq_of_lt}
use go_flac.Bitstream.{to_bits, to_bits_mod, length-to_bits}
use go_flac.Bitio.Writer.{write_signed_bits}
use go_flac.Bitio.Writer.Flush.{write_signed_bits-Writes}
use go_flac.Bitio.Reader.{M, pure}
use go_flac.Bitio.Reader.Read.{read_bits, read_signed, sign_extend}
use go_flac.Bitio.Reader.Reads.{Reads-bind, Reads-pure, Reads-read_bits}
use go_flac.Bitio.RoundTrip.{RoundTrip}
use go_flac.Rice.Fold.{IsWidth}
use go_flac.Rice.{widen}

-- `r`, a pattern of `w` bits, stands for a number that `raw` bits hold in two's complement.
abbrev pub FitsRaw : ℕ → ℕ → ℕ → Type 0
FitsRaw w raw r =
    (r < 2 ^ w) × ((r ≡ 0) ⊎ ((1 ≤ raw) × ((r < 2 ^ (raw - 1)) ⊎ (2 ^ w ≤ r + 2 ^ (raw - 1)))))

mul-div_cancel : (u n : ℕ) → u * 2 ^ n / 2 ^ n ≡ u
mul-div_cancel u n =
    let e : u * 2 ^ n + 0 ≡ u * 2 ^ n = omega arith in rw e at (fields_div u 0 n (pow-pos n))

scaled-le : (a b c : ℕ) → a ≤ b → a * c ≤ b * c
scaled-le a b c h = mul-le-mul_right c h

mul_pred : (k p : ℕ) → 1 ≤ k → (k - 1) * p + p ≡ k * p
mul_pred zero p h = absurd (omega arith)
mul_pred (suc k) p h = let e : suc k - 1 ≡ k = omega arith in rw e (omega arith)

-- The low bits of a small negative number.
pub low_negative :
    (m t : ℕ) → m < 64 → 1 ≤ t → t ≤ 2 ^ suc m → (2 ^ 64 - t) % 2 ^ suc m ≡ 2 ^ suc m - t
low_negative m t lt pos le =
    let k : ℕ = 2 ^ (63 - m) in
    let p : ℕ = 2 ^ suc m in
    let whole : 2 ^ 64 ≡ k * p = pow_split 64 (63 - m) (suc m) (omega arith) in
    let less = mul_pred k p (pow-pos (63 - m)) in
    let parts : 2 ^ 64 - t ≡ (k - 1) * p + (p - t) = omega arith in
    ap (λ (x : ℕ). x % p) parts ∙ fields_mod (k - 1) (p - t) (suc m) (omega arith)

-- Extending the sign, in the words of arithmetic.
pub sign_extend_lem :
    (m u : ℕ)
    → m < 64
    → u < 2 ^ suc m
    → sign_extend (suc m) u ≡ (if ltb u (2 ^ m) then u else u + (2 ^ 64 - 2 ^ suc m))
unfolding sign_extend
sign_extend_lem m u lt small =
    let rest : ℕ = 64 - suc m in
    let kept : shl64 u rest ≡ u * 2 ^ rest =
      let e : suc m + rest ≡ 64 = omega arith in
      mod-eq_of_lt (rw e at (shifted-lt u (suc m) rest small)) in
    let back : u * 2 ^ rest / 2 ^ rest ≡ u = mul-div_cancel u rest in
    let half : 2 ^ 63 ≡ 2 ^ m * 2 ^ rest = pow_split 63 m rest (omega arith) in
    let spare = pow-pos rest in
    rw (kept, back)
      (elim (Bool-cases (ltb u (2 ^ m))) [
        | inl pos ↦
            let low = ltb→lt u (2 ^ m) pos in
            let low' : ltb (u * 2 ^ rest) (2 ^ 63) ≡ true =
              let e : m + rest ≡ 63 = omega arith in
              lt→ltb (u * 2 ^ rest) (2 ^ 63) (rw e at (shifted-lt u m rest low)) in
            rw (pos, low') refl
        | inr neg ↦
            let high = ltb→ge u (2 ^ m) neg in
            let high' : ltb (u * 2 ^ rest) (2 ^ 63) ≡ false =
              ge→ltb (u * 2 ^ rest) (2 ^ 63) (rw half (scaled-le (2 ^ m) u (2 ^ rest) high)) in
            rw (neg, high') refl
      ])

-- A 64-bit pattern that `m + 1` bits hold is what they extend to.
sign_back :
    (m v : ℕ)
    → m < 64
    → (v < 2 ^ m) ⊎ ((v < 2 ^ 64) × (2 ^ 64 ≤ v + 2 ^ m))
    → sign_extend (suc m) (v % 2 ^ suc m) ≡ v
sign_back m v lt (inl small) =
    let twice = two-pow-suc m in
    let kept : v % 2 ^ suc m ≡ v = mod-eq_of_lt (omega arith) in
    rw kept (sign_extend_lem m v lt (omega arith) ∙ rw (lt→ltb v (2 ^ m) small) refl)
sign_back m v lt (inr (below, high)) =
    let twice = two-pow-suc m in
    let t : ℕ = 2 ^ 64 - v in
    let p : ℕ = 2 ^ suc m in
    let same : 2 ^ 64 - t ≡ v = omega arith in
    let room : p ≤ 2 ^ 64 = pow_mono (suc m) 64 lt in
    let cut : v % p ≡ p - t = rw same at (low_negative m t lt (omega arith) (omega arith)) in
    let negative : ltb (p - t) (2 ^ m) ≡ false = ge→ltb (p - t) (2 ^ m) (omega arith) in
    rw cut (sign_extend_lem m (p - t) lt (omega arith) ∙ rw negative (omega arith))

-- The pattern as an `int64`: its value is as small as before, and cutting gives it back.
widen_lem :
    (w m r : ℕ)
    → IsWidth w
    → suc m ≤ w
    → r < 2 ^ w
    → (r < 2 ^ m) ⊎ (2 ^ w ≤ r + 2 ^ m)
    → ((widen w r < 2 ^ m) ⊎ ((widen w r < 2 ^ 64) × (2 ^ 64 ≤ widen w r + 2 ^ m)))
      × (widen w r % 2 ^ w ≡ r)
unfolding widen
widen_lem w m r (inl e) le lt fits =
    let low : 2 ^ m ≤ 2 ^ 31 = pow_mono m 31 (omega arith) in
    let lt' : r < 2 ^ 32 = rw e at lt in
    let fits' : (r < 2 ^ m) ⊎ (2 ^ 32 ≤ r + 2 ^ m) = rw e at fits in rw e (ground arith)
widen_lem w m r (inr e) le lt fits =
    let low : 2 ^ m ≤ 2 ^ 63 = pow_mono m 63 (omega arith) in
    let lt' : r < 2 ^ 64 = rw e at lt in
    let fits' : (r < 2 ^ m) ⊎ (2 ^ 64 ≤ r + 2 ^ m) = rw e at fits in rw e (ground arith)

widen-zero : (w : ℕ) → IsWidth w → widen w 0 ≡ 0
unfolding widen
widen-zero w (inl e) = rw e refl
widen-zero w (inr e) = rw e refl

raw_zero :
    (w r : ℕ)
    → IsWidth w
    → r ≡ 0
    → RoundTrip 0 (write_signed_bits (widen w r) 0) (read_signed 0) (widen w r)
      × (widen w r % 2 ^ w ≡ r)
unfolding read_signed to_bits
raw_zero w r wide e =
    rw (e, widen-zero w wide)
      (
        record {
          bits = [];
          width = refl;
          appends = λ b valid. write_signed_bits-Writes b valid 0 0 (omega arith);
          reads = Reads-pure 0;
        },
        mod-eq_of_lt (pow-pos w),
      )

raw_suc :
    (w m r : ℕ)
    → IsWidth w
    → suc m ≤ w
    → m ≤ 56
    → r < 2 ^ w
    → (r < 2 ^ m) ⊎ (2 ^ w ≤ r + 2 ^ m)
    → RoundTrip (suc m) (write_signed_bits (widen w r) (suc m)) (read_signed (suc m)) (widen w r)
      × (widen w r % 2 ^ w ≡ r)
unfolding read_signed
raw_suc w m r wide le short lt fits =
    let (small, back) = widen_lem w m r wide le lt fits in
    let v : ℕ = widen w r in
    let n : ℕ = suc m in
    let whole : (n == 0) ≡ false = ground arith in
    let read = Reads-read_bits n (v % 2 ^ n) (omega arith) (mod-lt v (pow-pos n)) in
    let extend : ℕ → M ℕ = λ u. pure (sign_extend n u) in
    let same : sign_extend n (v % 2 ^ n) ≡ v = sign_back m v (omega arith) small in
    (
      record {
        bits = to_bits n v ++ [];
        width = rw (append-nil (to_bits n v)) (length-to_bits n v);
        appends = λ b valid.
            rw (append-nil (to_bits n v)) (write_signed_bits-Writes b valid v n (omega arith));
        reads = rw whole (
            Reads-bind (read_bits n) extend (to_bits n v) [] (v % 2 ^ n) v
              (rw (to_bits_mod n v) at read) (rw same (Reads-pure v)));
      },
      back,
    )

-- A residual in the raw form of an escape, on `raw` bits.
pub RoundTrip-write_raw :
    (w raw r : ℕ)
    → IsWidth w
    → raw ≤ w
    → raw ≤ 57
    → FitsRaw w raw r
    → RoundTrip raw (write_signed_bits (widen w r) raw) (read_signed raw) (widen w r)
      × (widen w r % 2 ^ w ≡ r)
RoundTrip-write_raw w zero r wide le short (lt, inl e) = raw_zero w r wide e
RoundTrip-write_raw w zero r wide le short (lt, inr (pos, fits)) = absurd (omega arith)
RoundTrip-write_raw w (suc m) r wide le short (lt, inl e) =
    raw_suc w m r wide le (omega arith) lt (inl (rw e (pow-pos m)))
RoundTrip-write_raw w (suc m) r wide le short (lt, inr (pos, fits)) =
    let e : suc m - 1 ≡ m = omega arith in raw_suc w m r wide le (omega arith) lt (rw e at fits)

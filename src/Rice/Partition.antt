-- ===== src/Rice/Partition.antt =====
-- A partition: its parameter and its residuals, in either coding.
use go_flac.Prelude.{
  ℕ, ◌+◌, ◌*◌, ◌/◌, ◌^◌, ◌≤◌, ◌<◌, ◌≡◌, ◌⊎◌, inl, inr, List, [], ◌∷◌, All, length, true, false,
  ◌==◌, arith,
}
use go_flac.Bitio.Writer.{write_bits}
use go_flac.Bitio.RoundTrip.{
  RoundTrip, RoundTrip-write_bits, RoundTrip-then, RoundTrip-end, RoundTrip-width,
}
use go_flac.Rice.{
  Plan, Decoded, zigzag, escape_code, write_symbols, write_raws, write_partition, read_symbols,
  read_raws, read_escaped, read_partition,
}
use go_flac.Rice.Fold.{IsWidth, unzigzag-zigzag}
use go_flac.Rice.Symbol.{RoundTrip-write_folded, joined_value}
use go_flac.Rice.Raw.{FitsRaw, RoundTrip-write_raw}

-- A residual in the range of the format: a pattern of `w` bits that folds to 32 bits.
abbrev pub IsResidual : ℕ → ℕ → Type 0
IsResidual w r = (r < 2 ^ w) × (zigzag w r < 2 ^ 32)

-- The bits that the residuals take with the parameter `k`.
unfoldable pub symbols_bits : ℕ → ℕ → List ℕ → ℕ
symbols_bits w k [] = 0
symbols_bits w k (r ∷ rs) = zigzag w r / 2 ^ k + 1 + k + symbols_bits w k rs

abbrev pub IsParamBits : ℕ → Type 0
IsParamBits n = (n ≡ 4) ⊎ (n ≡ 5)

abbrev pub all_read : List ℕ → Decoded
all_read rs = record { values = rs; over = 0 }

-- The plan `pl` can carry the residuals `rs`, and its `payload` is what they take.
abbrev pub Carries : ℕ → ℕ → Plan → List ℕ → Type 0
Carries w param_bits pl rs =
    ((pl.escape ≡ false)
      × (pl.param < escape_code param_bits)
      × All (IsResidual w) rs
      × (pl.payload ≡ symbols_bits w pl.param rs))
    ⊎ ((pl.escape ≡ true)
        × (pl.raw_bits ≤ 31)
        × All (FitsRaw w pl.raw_bits) rs
        × (pl.payload ≡ 5 + length rs * pl.raw_bits))

symbols_RoundTrip :
    (w k : ℕ) (rs : List ℕ)
    → IsWidth w
    → k ≤ 30
    → All (IsResidual w) rs
    → RoundTrip
        (symbols_bits w k rs)
        (write_symbols w k rs)
        (read_symbols w k (length rs) 0)
        (all_read rs)
unfolding symbols_bits write_symbols read_symbols
symbols_RoundTrip w k [] wide le h = RoundTrip-end (all_read [])
symbols_RoundTrip w k (r ∷ rs) wide le ((lt, small), h) =
    let (bound, back) = unzigzag-zigzag w r wide lt in
    let (whole, none_over) = joined_value k (zigzag w r) le small in
    RoundTrip-then {e' = write_symbols w k rs} _ (RoundTrip-write_folded k (zigzag w r) le) (
      rw (none_over, whole, back)
        (RoundTrip-width (omega arith) (
          RoundTrip-then {n = 0} {e' = λ b. b} _ (symbols_RoundTrip w k rs wide le h)
            (RoundTrip-end (all_read (r ∷ rs))))))

pub raws_RoundTrip :
    (w raw : ℕ) (rs : List ℕ)
    → IsWidth w
    → raw ≤ w
    → raw ≤ 57
    → All (FitsRaw w raw) rs
    → RoundTrip (length rs * raw) (write_raws w raw rs) (read_raws w raw (length rs)) rs
unfolding write_raws read_raws
raws_RoundTrip w raw [] wide le short h = RoundTrip-width {m = 0} (omega arith) (RoundTrip-end [])
raws_RoundTrip w raw (r ∷ rs) wide le short (fits, h) =
    let (one, back) = RoundTrip-write_raw w raw r wide le short fits in
    RoundTrip-width {m = raw + (length rs * raw + 0)} (omega arith) (
      RoundTrip-then {e' = write_raws w raw rs} _ one (
        rw back (
          RoundTrip-then {n = 0} {e' = λ b. b} _ (raws_RoundTrip w raw rs wide le short h)
            (RoundTrip-end (r ∷ rs)))))

Width-ge : (w raw : ℕ) → IsWidth w → raw ≤ 31 → raw ≤ w
Width-ge w raw (inl e) le = rw e (omega arith)
Width-ge w raw (inr e) le = rw e (omega arith)

escape_code-lt : (n : ℕ) → IsParamBits n → escape_code n < 2 ^ n
escape_code-lt n (inl e) = rw e (omega arith)
escape_code-lt n (inr e) = rw e (omega arith)

-- A partition is read back by the plan that it was written with, in as many bits as the plan says.
pub RoundTrip-write_partition :
    (w param_bits : ℕ) (pl : Plan) (rs : List ℕ)
    → IsWidth w
    → IsParamBits param_bits
    → Carries w param_bits pl rs
    → RoundTrip
        (param_bits + pl.payload)
        (write_partition w param_bits pl rs)
        (read_partition w param_bits (length rs) 0)
        (all_read rs)
unfolding write_partition read_partition read_escaped
RoundTrip-write_partition w param_bits pl rs wide field (inl (kind, lt, h, cost)) =
    let k : ℕ = pl.param in
    let no_escape : (k == escape_code param_bits) ≡ false = ground arith in
    let small : k ≤ 30 = ground arith in
    rw (kind, cost)
      (RoundTrip-then {e' = write_symbols w k rs} _
        (RoundTrip-write_bits k param_bits (ground arith)
          (omega (arith, escape_code-lt param_bits field)))
        (rw no_escape (symbols_RoundTrip w k rs wide small h)))
RoundTrip-write_partition w param_bits pl rs wide field (inr (kind, le, h, cost)) =
    let code : ℕ = escape_code param_bits in
    let escaped : (code == escape_code param_bits) ≡ true = ground arith in
    rw (kind, cost)
      (RoundTrip-then {e' = λ b. write_raws w pl.raw_bits rs (write_bits pl.raw_bits 5 b)} _
        (RoundTrip-write_bits code param_bits (ground arith) (escape_code-lt param_bits field))
        (rw escaped (
          RoundTrip-then {e' = write_raws w pl.raw_bits rs} _
            (RoundTrip-write_bits pl.raw_bits 5 (omega arith) (omega arith))
            (RoundTrip-width (omega arith) (
              RoundTrip-then {n = 0} {e' = λ b. b} _
                (raws_RoundTrip w pl.raw_bits rs wide (Width-ge w pl.raw_bits wide le) (omega arith)
                  h)
                (RoundTrip-end (all_read rs)))))))

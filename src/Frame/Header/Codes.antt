-- ===== src/Frame/Header/Codes.antt =====
-- The codes of a frame header decode to the values that they were made from.
use go_flac.Prelude.{
  ℕ, ◌+◌, ◌*◌, ◌/◌, ◌%◌, ◌^◌, ◌≤◌, ◌<◌, ◌≡◌, refl, ap, ◌⊎◌, inl, inr, some, get_or, true, false,
  ◌&&◌, arith, ltb, leb, ◌==◌, Bool-cases,
}
use go_flac.Prelude.Word.{sub64}
use go_flac.Bitio.Reader.{M, ◌>>=◌, pure}
use go_flac.Bitio.Reader.Read.{read_bits}
use go_flac.Bitio.RoundTrip.{
  RoundTrip, RoundTrip-write_bits, RoundTrip-then, RoundTrip-end, RoundTrip-done, RoundTrip-width,
}
use go_flac.Meta.StreamInfo.{StreamInfo}
use go_flac.Frame.Header.{
  FieldCode, direct, escaped, write_ext, standard_rate_code, escaped_rate_code, sample_rate_code,
  bit_depth_code, standard_block_code, block_size_code, decode_block_size, sample_rate_table,
  decode_sample_rate, decode_bits_per_sample,
}

standard_rate_code-table :
    (sr : ℕ)
    → (standard_rate_code sr ≡ 0)
      ⊎ ((1 ≤ standard_rate_code sr)
          × (standard_rate_code sr ≤ 11)
          × (get_or sample_rate_table (standard_rate_code sr) 0 ≡ sr))
unfolding standard_rate_code
standard_rate_code-table sr = ground arith

rate_found :
    (c : ℕ) (si : StreamInfo) (sr : ℕ)
    → 1 ≤ c
    → c ≤ 11
    → get_or sample_rate_table c 0 ≡ sr
    → decode_sample_rate c si ≡ pure sr
unfolding decode_sample_rate
rate_found c si sr ge le found =
    let coded : (c == 0) ≡ false = ground arith in
    let within : (leb 1 c && leb c 11) ≡ true = ground arith in rw (coded, within) (ap pure found)

-- What a block size code of the table decodes to.
standard_block_code-size :
    (bs : ℕ)
    → (standard_block_code bs ≡ 0)
      ⊎ ((1 ≤ standard_block_code bs)
          × (standard_block_code bs < 16)
          × (decode_block_size (standard_block_code bs) ≡ pure bs))
unfolding standard_block_code decode_block_size
standard_block_code-size bs = ground arith

-- The code fits its 4 bits, and the decoder `d` finds `x` by it and the value that follows.
pub record Recovers (c : FieldCode) (d : ℕ → M ℕ) (x : ℕ) : Type 0 where
  pub code_lt : c.code < 16
  pub value : RoundTrip c.ext_n (write_ext c) (d c.code) x

-- A code without a value decodes without reading.
direct-Recovers : (c : ℕ) {d : ℕ → M ℕ} {x : ℕ} → c < 16 → d c ≡ pure x → Recovers (direct c) d x
unfolding write_ext
direct-Recovers c {x = x} lt e = record { code_lt = lt; value = rw e (RoundTrip-end x) }

-- A code whose value the decoder turns into `x` by `f`.
escaped-Recovers :
    (c n v : ℕ) (d : ℕ → M ℕ) (f : ℕ → ℕ) {x : ℕ}
    → c < 16
    → 0 < n
    → n ≤ 57
    → v < 2 ^ n
    → d c ≡ (read_bits n >>= λ u. pure (f u))
    → f v ≡ x
    → Recovers (escaped c n v) d x
unfolding write_ext
escaped-Recovers c n v d f {x} lt pos small fits e same =
    let widened : ltb 0 n ≡ true = ground arith in
    record {
      code_lt = lt;
      value =
          rw (widened, e)
            (RoundTrip-width {m = n + 0} (omega arith) (
              RoundTrip-then {e' = λ w. w} _ (RoundTrip-write_bits v n small fits)
                (RoundTrip-done (f v) same)));
    }

-- A block of 1 to 65536 samples has a code of 4 bits that `decodeBlockSize` turns back into its
-- size, reading the value that the code announces, if any.
pub block_size_code-Recovers :
    (bs : ℕ) → 1 ≤ bs → bs ≤ 65536 → Recovers (block_size_code bs) decode_block_size bs
unfolding block_size_code
block_size_code-Recovers bs ge le = elim (standard_block_code-size bs) [
  | inl none_fits ↦ rw none_fits (
      let back : sub64 bs 1 + 1 ≡ bs = omega arith in
      elim (Bool-cases (leb bs 0x100)) [
        | inl short ↦ rw short (
            escaped-Recovers 6 8 (sub64 bs 1) decode_block_size (λ v. v + 1) (omega arith)
              (omega arith) (omega arith) (ground arith) (unfold decode_block_size in refl) back)
        | inr long ↦ rw long (
            escaped-Recovers 7 16 (sub64 bs 1) decode_block_size (λ v. v + 1) (omega arith)
              (omega arith) (omega arith) (omega arith) (unfold decode_block_size in refl) back)
      ])
  | inr (pos, lt, e) ↦
      let coded : (standard_block_code bs == 0) ≡ false = ground arith in
      rw coded (direct-Recovers (standard_block_code bs) lt e)
]

-- The escapes, and the fallback to the rate of STREAMINFO.
escaped_rate_code-Recovers :
    (sr : ℕ) (si : StreamInfo)
    → 1 ≤ sr
    → si.sample_rate ≡ sr
    → Recovers (escaped_rate_code sr) (λ c. decode_sample_rate c si) sr
unfolding escaped_rate_code
escaped_rate_code-Recovers sr si ge same =
    let d : ℕ → M ℕ = λ c. decode_sample_rate c si in
    elim (Bool-cases (sr % 1000 == 0 && leb (sr / 1000) 0xff)) [
      | inl kilo ↦ rw kilo (
          escaped-Recovers 12 8 (sr / 1000) d (λ v. v * 1000) (omega arith) (omega arith)
            (omega arith) (ground arith) (unfold decode_sample_rate in refl) (ground arith))
      | inr other ↦ rw other (elim (Bool-cases (leb sr 0xffff)) [
        | inl hertz ↦ rw hertz (
            escaped-Recovers 13 16 sr d (λ v. v) (omega arith) (omega arith) (omega arith)
              (ground arith) (unfold decode_sample_rate in refl) refl)
        | inr above ↦ rw above (elim (Bool-cases (sr % 10 == 0 && leb (sr / 10) 0xffff)) [
          | inl tens ↦ rw tens (
              escaped-Recovers 14 16 (sr / 10) d (λ v. v * 10) (omega arith) (omega arith)
                (omega arith) (ground arith) (unfold decode_sample_rate in refl) (ground arith))
          | inr odd ↦
              rw odd (
                direct-Recovers 0 {d = d} (omega arith) (unfold decode_sample_rate in ap pure same))
        ])
      ])
    ]

-- A positive sample rate has a code of 4 bits that `decodeSampleRate` turns back into the rate,
-- reading the value that the code announces, if any, and given a STREAMINFO of the same rate.
pub sample_rate_code-Recovers :
    (sr : ℕ) (si : StreamInfo)
    → 1 ≤ sr
    → si.sample_rate ≡ sr
    → (c : FieldCode) × (sample_rate_code sr ≡ some c)
      × Recovers c (λ k. decode_sample_rate k si) sr
unfolding sample_rate_code
sample_rate_code-Recovers sr si ge same =
    let positive : (sr == 0) ≡ false = ground arith in
    rw positive (elim (standard_rate_code-table sr) [
      | inl no_code ↦
          rw no_code (escaped_rate_code sr, refl, escaped_rate_code-Recovers sr si ge same)
      | inr (pos, le, found) ↦
          let c : ℕ = standard_rate_code sr in
          let coded : (c == 0) ≡ false = ground arith in
          rw coded
            (direct c, refl, direct-Recovers c (omega arith) (rate_found c si sr pos le found))
    ])

-- A bit depth has a code of 3 bits that `decodeBitsPerSample` turns back into the depth, given a
-- STREAMINFO of the same depth.
pub decode_bits_per_sample-bit_depth_code :
    (bps : ℕ) (si : StreamInfo)
    → si.bit_depth ≡ bps
    → (bit_depth_code bps < 8) × (decode_bits_per_sample (bit_depth_code bps) si ≡ pure bps)
unfolding bit_depth_code decode_bits_per_sample
decode_bits_per_sample-bit_depth_code bps si same = ground arith

-- ===== src/Meta/SeekTable/RoundTrip.antt =====
-- A seek table reads back, less its placeholders.
use go_flac.Prelude.{
  ℕ, zero, suc, ◌+◌, ◌*◌, ◌/◌, ◌%◌, ◌^◌, ◌<◌, ◌≡◌, refl, sym, ap, ◌∙◌, List, [], ◌∷◌, ◌++◌, some,
  true, ◌==◌, if◌then◌else◌, All, take, drop, length, length-append, arith,
}
use go_flac.Prelude.Pow.{pow-pos, pow-add, fields_mod, fields-lt}
use go_flac.Prelude.Word.{byte}
use native.Mathlib.Nat.{div-add-mod', mod-lt, mod-eq_of_lt}
use go_flac.Bitstream.{be_bytes}
use go_flac.Bitio.Reader.Read.{of_bytes}
use go_flac.Meta.SeekTable.{
  SeekPoint, placeholder_sample_number, encode_seek_point, encode_seek_points, parse_points,
  parse_seek_table,
}

length-be_bytes : (k v : ℕ) → length (be_bytes k v) ≡ k
unfolding be_bytes
length-be_bytes zero v = refl
length-be_bytes (suc k) v = ap suc (length-be_bytes k v)

byte_top : (v m : ℕ) → v % 2 ^ (8 + m) ≡ v / 2 ^ m % 256 * 2 ^ m + v % 2 ^ m
byte_top v m =
    let h : ℕ = v / 2 ^ m in
    let small : v % 2 ^ m < 2 ^ m = mod-lt v (pow-pos m) in
    let low : h % 256 * 2 ^ m + v % 2 ^ m < 2 ^ (8 + m) =
      fields-lt (h % 256) (v % 2 ^ m) 8 m (omega arith) small in
    let whole : 2 ^ (8 + m) ≡ 256 * 2 ^ m = pow-add 8 m in
    let parts : v ≡ h / 256 * 2 ^ (8 + m) + (h % 256 * 2 ^ m + v % 2 ^ m) =
      rw whole
        (omega (arith, div-add-mod' v (2 ^ m), ap (λ (t : ℕ). t * 2 ^ m) (div-add-mod' h 256))) in
    ap (λ (t : ℕ). t % 2 ^ (8 + m)) parts
    ∙ fields_mod (h / 256) (h % 256 * 2 ^ m + v % 2 ^ m) (8 + m) low

of_bytes-be_bytes : (k v : ℕ) → of_bytes (be_bytes k v) ≡ v % 2 ^ (k * 8)
unfolding of_bytes be_bytes
of_bytes-be_bytes zero v = omega arith
of_bytes-be_bytes (suc k) v =
    let e : suc k * 8 ≡ 8 + k * 8 = omega arith in
    let once : byte (v / 2 ^ (k * 8) % 256) ≡ v / 2 ^ (k * 8) % 256 = omega arith in
    rw (e, once, length-be_bytes k v, of_bytes-be_bytes k v) (sym (byte_top v (k * 8)))

-- The fields fit their widths.
pub record IsEncodablePoint (p : SeekPoint) : Type 0 where
  pub number_lt : p.sample_number < 2 ^ 64
  pub offset_lt : p.byte_offset < 2 ^ 64
  pub samples_lt : p.frame_samples < 2 ^ 16

-- The points that are no placeholders.
unfoldable pub real_points : List SeekPoint → List SeekPoint
real_points [] = []
real_points (p ∷ ps) =
    if p.sample_number == placeholder_sample_number then real_points ps else p ∷ real_points ps

length-encode_seek_point : (p : SeekPoint) → length (encode_seek_point p) ≡ 18
unfolding encode_seek_point be_bytes
length-encode_seek_point p = refl

-- Each field stands where the parser looks.
at_fields :
    (p : SeekPoint) (t : List ℕ)
    → (take 8 (encode_seek_point p ++ t) ≡ be_bytes 8 p.sample_number)
      × (take 8 (drop 8 (encode_seek_point p ++ t)) ≡ be_bytes 8 p.byte_offset)
      × (take 2 (drop 16 (encode_seek_point p ++ t)) ≡ be_bytes 2 p.frame_samples)
      × (drop 18 (encode_seek_point p ++ t) ≡ t)
unfolding encode_seek_point be_bytes
at_fields p t = (refl, refl, refl, refl)

parse_points-encode_seek_points :
    (ps : List SeekPoint)
    → All IsEncodablePoint ps
    → parse_points (length ps) (encode_seek_points ps) ≡ real_points ps
unfolding parse_points encode_seek_points real_points
parse_points-encode_seek_points [] h = refl
parse_points-encode_seek_points (p ∷ ps) (fits, h) =
    let (at_number, at_offset, at_samples, at_rest) = at_fields p (encode_seek_points ps) in
    let number : of_bytes (be_bytes 8 p.sample_number) ≡ p.sample_number =
      of_bytes-be_bytes 8 p.sample_number ∙ mod-eq_of_lt fits.number_lt in
    let offset : of_bytes (be_bytes 8 p.byte_offset) ≡ p.byte_offset =
      of_bytes-be_bytes 8 p.byte_offset ∙ mod-eq_of_lt fits.offset_lt in
    let samples : of_bytes (be_bytes 2 p.frame_samples) ≡ p.frame_samples =
      of_bytes-be_bytes 2 p.frame_samples ∙ mod-eq_of_lt fits.samples_lt in
    let rest = parse_points-encode_seek_points ps h in
    rw (at_number, at_offset, at_samples, at_rest, number, offset, samples, rest) refl

length-encode_seek_points : (ps : List SeekPoint) → length (encode_seek_points ps) ≡ length ps * 18
unfolding encode_seek_points
length-encode_seek_points [] = refl
length-encode_seek_points (p ∷ ps) =
    length-append (encode_seek_point p) (encode_seek_points ps)
    ∙ omega (arith, length-encode_seek_point p, length-encode_seek_points ps)

-- `parseSeekTable` gives back the points that `EncodeSeekPoints` was given, less the placeholders,
-- and the body has 18 bytes for each, if the fields of every point fit their widths.
pub parse_seek_table-encode_seek_points :
    (ps : List SeekPoint)
    → All IsEncodablePoint ps
    → (parse_seek_table (encode_seek_points ps) ≡ some (real_points ps))
      × (length (encode_seek_points ps) ≡ length ps * 18)
unfolding parse_seek_table
parse_seek_table-encode_seek_points ps h =
    let len = length-encode_seek_points ps in
    let whole : (length ps * 18 % 18 == 0) ≡ true = ground arith in
    let count : length ps * 18 / 18 ≡ length ps = omega arith in
    (rw (len, whole, count) (ap some (parse_points-encode_seek_points ps h)), len)

-- ===== src/Meta/SeekTable.antt =====
-- internal/meta/seektable.go: seek points, and the header of a metadata block.
pub mod RoundTrip
use go_flac.Prelude.{
  ℕ, zero, suc, ◌+◌, ◌-◌, ◌*◌, ◌/◌, ◌%◌, ◌^◌, ◌<◌, ◌≡◌, refl, sym, ap, ◌∙◌, List, [], ◌∷◌, ◌++◌,
  append_assoc, Option, none, some, Bool, true, false, ◌==◌, not, if◌then◌else◌, bit_and, bit_or,
  take, drop, length, length-append, take-append, drop-append, replicate, arith,
}
use go_flac.Prelude.Word.{shr, byte}
use go_flac.Bitstream.{be_bytes}
use go_flac.Bitio.Reader.Read.{of_bytes}

abbrev pub placeholder_sample_number : ℕ
placeholder_sample_number = 2 ^ 64 - 1

abbrev pub seek_point_bytes : ℕ
seek_point_bytes = 18

-- `SeekPoint`.
pub record SeekPoint : Type 0 where
  pub sample_number : ℕ
  pub byte_offset : ℕ
  pub frame_samples : ℕ

unfoldable pub encode_block_header : Bool → ℕ → ℕ → List ℕ
encode_block_header last btype length =
    let b0 = byte (bit_and btype 0x7f) in
    (if last then bit_or b0 0x80 else b0)
    ∷ byte (shr length 16)
    ∷ byte (shr length 8)
    ∷ byte length
    ∷ []

-- What `WriteStreamHeaderEx` hands to its writer: the marker, the block header and the body.
unfoldable pub stream_header_ex : List ℕ → Bool → List ℕ
unfolding encode_block_header
stream_header_ex body last =
    (0x66 ∷ 0x4c ∷ 0x61 ∷ 0x43 ∷ []) ++ encode_block_header last 0 (length body) ++ body

-- `WriteStreamHeader`.
unfoldable pub stream_header : List ℕ → List ℕ
unfolding stream_header_ex
stream_header body = stream_header_ex body true

-- The bytes of one point.
unfoldable pub encode_seek_point : SeekPoint → List ℕ
encode_seek_point p =
    be_bytes 8 p.sample_number ++ be_bytes 8 p.byte_offset ++ be_bytes 2 p.frame_samples

unfoldable pub encode_seek_points : List SeekPoint → List ℕ
unfolding encode_seek_point
encode_seek_points [] = []
encode_seek_points (p ∷ ps) = encode_seek_point p ++ encode_seek_points ps

-- `SeekTablePlaceholder`.
unfoldable pub seek_table_placeholder : ℕ → List ℕ
unfolding encode_seek_points
seek_table_placeholder n = encode_seek_points (
    replicate n
      (record { sample_number = placeholder_sample_number; byte_offset = 0; frame_samples = 0 }))

-- The loop over the points, of which `n` are left. Placeholders are dropped.
unfoldable pub parse_points : ℕ → List ℕ → List SeekPoint
unfolding of_bytes
parse_points zero body = []
parse_points (suc n) body =
    let sn = of_bytes (take 8 body) in
    let rest = parse_points n (drop seek_point_bytes body) in
    if sn == placeholder_sample_number
    then rest
    else (record {
      sample_number = sn;
      byte_offset = of_bytes (take 8 (drop 8 body));
      frame_samples = of_bytes (take 2 (drop 16 body));
    }
        ∷ rest)

-- `none` is `ErrUnsupported`.
unfoldable pub parse_seek_table : List ℕ → Option (List SeekPoint)
unfolding parse_points
parse_seek_table body =
    if not (length body % seek_point_bytes == 0)
    then none
    else some (parse_points (length body / seek_point_bytes) body)

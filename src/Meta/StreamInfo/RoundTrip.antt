-- ===== src/Meta/StreamInfo/RoundTrip.antt =====
-- A STREAMINFO body decodes to the fields that it was built from.
use go_flac.Prelude.{
  ℕ, ◌+◌, ◌*◌, ◌^◌, ◌≤◌, ◌<◌, ◌≡◌, ap, List, [], ◌∷◌, arith, length, All, ltb, ◌==◌, ◌||◌,
  if◌then◌else◌, false,
}
use go_flac.Prelude.Word.{sub64, byte}
use go_flac.Errors.{unsupported}
use go_flac.Bitio.Reader.{fail}
use go_flac.Bitio.RoundTrip.{
  RoundTrip, RoundTrip-write_bits, RoundTrip-then, RoundTrip-end, RoundTrip-done, RoundTrip-width,
  RoundTrip-buffer,
}
use go_flac.Meta.StreamInfo.{
  StreamInfo, Fields, write_bytes, read_raw, write_stream_info, read_stream_info, read_md5,
  encode_stream_info, decode_stream_info, decoded,
}

abbrev pub IsByte : ℕ → Type 0
IsByte b = b < 256

pub RoundTrip-write_bytes :
    (bs : List ℕ)
    → All IsByte bs
    → RoundTrip (length bs * 8) (write_bytes bs) (read_raw (length bs)) bs
unfolding write_bytes read_raw
RoundTrip-write_bytes [] h = RoundTrip-end []
RoundTrip-write_bytes (b ∷ bs) (hb, hbs) =
    let e : byte b ≡ b = omega arith in
    RoundTrip-width (omega arith) (
      RoundTrip-then _ (RoundTrip-write_bits b 8 (omega arith) hb) (
        RoundTrip-then _ (RoundTrip-write_bytes bs hbs)
          (RoundTrip-done _ (ap (λ (t : ℕ). t ∷ bs) e))))

-- The fields that the format can carry.
pub record IsEncodable (si : StreamInfo) (min_block max_block min_frame max_frame : ℕ)
    : Type 0 where
  pub rate_pos : 0 < si.sample_rate
  pub rate_lt : si.sample_rate < 2 ^ 20
  pub channels_pos : 1 ≤ si.channels
  pub channels_le : si.channels ≤ 8
  pub depth_ge : 4 ≤ si.bit_depth
  pub depth_le : si.bit_depth ≤ 32
  pub total_lt : si.total_samples < 2 ^ 36
  pub md5_length : length si.md5 ≡ 16
  pub md5_bytes : All IsByte si.md5
  pub min_block_lt : min_block < 2 ^ 16
  pub max_block_lt : max_block < 2 ^ 16
  pub min_frame_lt : min_frame < 2 ^ 24
  pub max_frame_lt : max_frame < 2 ^ 24

module _ (si : StreamInfo) (min_block max_block min_frame max_frame : ℕ)
    (h : IsEncodable si min_block max_block min_frame max_frame) where
  abbrev expected : Fields
  expected = record {
    info = si;
    min_block = min_block;
    max_block = max_block;
    max_frame = max_frame;
  }

  tail_RoundTrip :
      RoundTrip
        (16 * 8)
        (write_bytes si.md5)
        (if si.sample_rate == 0 || ltb (sub64 si.bit_depth 1) 3
          then fail unsupported
          else read_md5 min_block max_block max_frame si.sample_rate
              (sub64 si.channels 1)
              (sub64 si.bit_depth 1)
              si.total_samples)
        expected
  unfolding read_md5
  tail_RoundTrip =
      let accepted : (si.sample_rate == 0 || ltb (sub64 si.bit_depth 1) 3) ≡ false =
        ground (arith, h.rate_pos, h.depth_ge, h.depth_le) in
      let ch : sub64 si.channels 1 + 1 ≡ si.channels =
        omega (arith, h.channels_pos, h.channels_le) in
      let bps : sub64 si.bit_depth 1 + 1 ≡ si.bit_depth = omega (arith, h.depth_ge, h.depth_le) in
      rw accepted (
        RoundTrip-then {n = 0} _ (rw h.md5_length at (RoundTrip-write_bytes si.md5 h.md5_bytes))
          (RoundTrip-done _ (rw (ch, bps))))

  -- Field by field.
  pub RoundTrip-stream_info :
      RoundTrip
        (34 * 8)
        (write_stream_info si min_block max_block min_frame max_frame)
        read_stream_info
        expected
  unfolding write_stream_info read_stream_info
  RoundTrip-stream_info =
      RoundTrip-then _ (RoundTrip-write_bits min_block 16 (omega arith) h.min_block_lt) (
        RoundTrip-then _ (RoundTrip-write_bits max_block 16 (omega arith) h.max_block_lt) (
          RoundTrip-then _ (RoundTrip-write_bits min_frame 24 (omega arith) h.min_frame_lt) (
            RoundTrip-then _ (RoundTrip-write_bits max_frame 24 (omega arith) h.max_frame_lt) (
              RoundTrip-then _ (RoundTrip-write_bits si.sample_rate 20 (omega arith) h.rate_lt) (
                RoundTrip-then _
                  (RoundTrip-write_bits (sub64 si.channels 1) 3 (omega arith)
                    (omega (arith, h.channels_pos, h.channels_le)))
                  (RoundTrip-then _
                    (RoundTrip-write_bits (sub64 si.bit_depth 1) 5 (omega arith)
                      (omega (arith, h.depth_ge, h.depth_le)))
                    (RoundTrip-then _
                      (RoundTrip-write_bits si.total_samples 36 (omega arith) h.total_lt)
                      tail_RoundTrip)))))))

-- `DecodeStreamInfo` gives back the properties that `EncodeStreamInfo` was given, and the body has
-- the fixed length, if the properties and the sizes fit their fields.
pub decode-encode_stream_info :
    (si : StreamInfo) (min_block max_block min_frame max_frame : ℕ)
    → IsEncodable si min_block max_block min_frame max_frame
    → (length (encode_stream_info si min_block max_block min_frame max_frame) ≡ 34)
      × (decode_stream_info (encode_stream_info si min_block max_block min_frame max_frame)
          ≡ decoded si)
unfolding encode_stream_info decode_stream_info
decode-encode_stream_info si min_block max_block min_frame max_frame h =
    let (len, (b, run)) =
      RoundTrip-buffer 34 (RoundTrip-stream_info si min_block max_block min_frame max_frame h) in
    (len, rw (len, run))

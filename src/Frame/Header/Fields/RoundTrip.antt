-- ===== src/Frame/Header/Fields/RoundTrip.antt =====
-- The fields of a frame header read back as they were written.
use go_flac.Prelude.{ℕ, ◌+◌, ◌^◌, ◌≤◌, ◌<◌, ◌≡◌, refl, ap, false, some, arith, leb}
use go_flac.Bitio.Writer.{Writer, write_bits}
use go_flac.Bitio.Reader.{Run, M}
use go_flac.Bitio.RoundTrip.{RoundTrip, RoundTrip-write_bits, RoundTrip-then, RoundTrip-end}
use go_flac.Meta.StreamInfo.{StreamInfo}
use go_flac.Frame.CodedNumber.{write_utf8}
use go_flac.Frame.CodedNumber.RoundTrip.{coded_width, read-write_coded_number}
use go_flac.Frame.Header.{
  FieldCode, write_ext, block_size_code, bit_depth_code, decode_block_size, decode_sample_rate,
}
use go_flac.Frame.Header.Codes.{
  Recovers, block_size_code-Recovers, sample_rate_code-Recovers,
  decode_bits_per_sample-bit_depth_code,
}
use go_flac.Frame.Header.Fields.{
  Header, sync_code, write_codes, write_with_rate, write_header_fields, with_end, committed,
  read_values, read_codes, read_header_fields,
}

RoundTrip-committed :
    {A : Type 0} {n : ℕ} {e : Writer → Writer} {d : M A} {a : A}
    → RoundTrip n e d a
    → RoundTrip n e (committed d) a
unfolding committed
RoundTrip-committed p = record {
  bits = p.bits;
  width = p.width;
  appends = p.appends;
  reads = λ b rest valid front.
      let (b', run, v, same) = p.reads b rest valid front in
      (b', ap (λ (r : Run _). with_end r) run, v, same);
}

module _ (si : StreamInfo) (block_size ch_code sample_rate bit_depth frame_num : ℕ)
    (bs sr : FieldCode) (bs_back : Recovers bs decode_block_size block_size)
    (sr_back : Recovers sr (λ k. decode_sample_rate k si) sample_rate)
    (same_depth : si.bit_depth ≡ bit_depth) (ch_lt : ch_code < 11)
    (num_lt : frame_num < 2 ^ 36) where
  abbrev pub header_of : Header
  header_of = record {
    variable_block_size = false;
    block_size = block_size;
    sample_rate = sample_rate;
    channel_assignment = ch_code;
    bits_per_sample = bit_depth;
    number = frame_num;
  }

  values_RoundTrip :
      RoundTrip
        (coded_width frame_num + (bs.ext_n + (sr.ext_n + 0)))
        (λ w. write_ext sr (write_ext bs (write_utf8 frame_num w)))
        (read_values si false bs.code sr.code ch_code (bit_depth_code bit_depth))
        header_of
  unfolding read_values
  values_RoundTrip =
      let (lt, depth_back) = decode_bits_per_sample-bit_depth_code bit_depth si same_depth in
      RoundTrip-then {e' = λ w. write_ext sr (write_ext bs w)} _
        (read-write_coded_number frame_num num_lt)
        (RoundTrip-then {e' = write_ext sr} _ bs_back.value
          (RoundTrip-then {e' = λ w. w} _ sr_back.value (rw depth_back (RoundTrip-end header_of))))

  codes_RoundTrip :
      RoundTrip
        (1 + (4 + (4 + (4 + (3 + (1 + (coded_width frame_num + (bs.ext_n + (sr.ext_n + 0)))))))))
        (λ w. write_ext sr (
          write_ext bs (
            write_utf8 frame_num (
              write_bits 0 1 (
                write_bits (bit_depth_code bit_depth) 3 (
                  write_bits ch_code 4
                    (write_bits sr.code 4 (write_bits bs.code 4 (write_bits 0 1 w)))))))))
        (read_codes si)
        header_of
  unfolding read_codes
  codes_RoundTrip =
      let (depth_lt, depth_back) = decode_bits_per_sample-bit_depth_code bit_depth si same_depth in
      let tail : Writer → Writer = λ w. write_ext sr (write_ext bs (write_utf8 frame_num w)) in
      let assigned : leb 11 ch_code ≡ false = ground arith in
      RoundTrip-then _ (RoundTrip-write_bits 0 1 (omega arith) (omega arith)) (
        RoundTrip-then _ (RoundTrip-write_bits bs.code 4 (omega arith) bs_back.code_lt) (
          RoundTrip-then _ (RoundTrip-write_bits sr.code 4 (omega arith) sr_back.code_lt) (
            RoundTrip-then _ (RoundTrip-write_bits ch_code 4 (omega arith) (omega arith)) (
              RoundTrip-then _
                (RoundTrip-write_bits (bit_depth_code bit_depth) 3 (omega arith) depth_lt)
                (RoundTrip-then {e' = tail} _ (RoundTrip-write_bits 0 1 (omega arith) (omega arith))
                  (rw assigned values_RoundTrip))))))

  fields_RoundTrip :
      (n : ℕ) × RoundTrip n
        (write_codes bs sr ch_code (bit_depth_code bit_depth) frame_num)
        (read_header_fields si)
        header_of
  unfolding write_codes read_header_fields
  fields_RoundTrip = (
    _,
    RoundTrip-then _ (RoundTrip-write_bits sync_code 14 (omega arith) (omega arith)) (
        RoundTrip-committed (
          RoundTrip-then _ (RoundTrip-write_bits 0 1 (omega arith) (omega arith)) codes_RoundTrip)),
  )

-- What `writeFrameHeader` writes before the CRC-8 is read back by `readHeaderBody` as the same
-- fields, for a block of 1 to 65536 samples, a channel assignment that is not reserved, a positive
-- sample rate and a bit depth that are those of STREAMINFO, and a frame number below 2 ^ 36.
pub read-write_header_fields :
    (si : StreamInfo) (block_size ch_code frame_num : ℕ)
    → 1 ≤ block_size
    → block_size ≤ 65536
    → ch_code < 11
    → 1 ≤ si.sample_rate
    → frame_num < 2 ^ 36
    → (e : Writer → Writer) × (write_header_fields block_size ch_code si.sample_rate si.bit_depth
          frame_num
        ≡ some e)
      × ((n : ℕ) × RoundTrip n e (read_header_fields si) (record {
        variable_block_size = false;
        block_size = block_size;
        sample_rate = si.sample_rate;
        channel_assignment = ch_code;
        bits_per_sample = si.bit_depth;
        number = frame_num;
      }))
unfolding write_header_fields write_with_rate
read-write_header_fields si block_size ch_code frame_num ge le ch_lt rate_pos num_lt =
    let (sr, coded, sr_back) = sample_rate_code-Recovers si.sample_rate si rate_pos refl in
    let bs : FieldCode = block_size_code block_size in
    rw coded (
      write_codes bs sr ch_code (bit_depth_code si.bit_depth) frame_num,
      refl,
      fields_RoundTrip si block_size ch_code si.sample_rate si.bit_depth frame_num bs sr
          (block_size_code-Recovers block_size ge le) sr_back refl ch_lt num_lt,
    )

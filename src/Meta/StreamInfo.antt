-- ===== src/Meta/StreamInfo.antt =====
-- `EncodeStreamInfo` (internal/meta/encode.go), `readStreamInfo` and `DecodeStreamInfo`
-- (internal/meta/streaminfo.go): the 34-byte STREAMINFO body. Counts that Go holds in an `int`
-- are numbers here; none is negative.
pub mod RoundTrip
use go_flac.Prelude.{
  ℕ, zero, suc, ◌+◌, ◌-◌, ◌%◌, ◌^◌, ◌≡◌, List, [], ◌∷◌, Bool, ◌||◌, ltb, ◌==◌, not, if◌then◌else◌,
  length,
}
use go_flac.Prelude.Word.{sub64, byte}
use go_flac.Errors.{Error, eof, unsupported}
use go_flac.Bitio.Source.{Source}
use go_flac.Bitio.Writer.{Writer, new_writer, write_bits, bytes}
use go_flac.Bitio.Reader.{Reader, Run, ok, err, M, ◌>>=◌, ◌>>◌, pure, fail, new_reader}
use go_flac.Bitio.Reader.Read.{read_bits}
use go_flac.Bitio.RoundTrip.{source_of}

-- `flac.StreamInfo`.
pub record StreamInfo : Type 0 where
  pub sample_rate : ℕ
  pub channels : ℕ
  pub bit_depth : ℕ
  pub total_samples : ℕ
  pub md5 : List ℕ

-- What `readStreamInfo` returns.
pub record Fields : Type 0 where
  pub info : StreamInfo
  pub min_block : ℕ
  pub max_block : ℕ
  pub max_frame : ℕ

abbrev pub stream_info_body_len : ℕ
stream_info_body_len = 34

-- The loop over the 16 bytes of the MD5.
unfoldable pub write_bytes : List ℕ → Writer → Writer
write_bytes [] w = w
write_bytes (b ∷ bs) w = write_bytes bs (write_bits b 8 w)

unfoldable pub read_raw : ℕ → M (List ℕ)
read_raw zero = pure []
read_raw (suc n) = do b ← read_bits 8; bs ← read_raw n; pure (byte b ∷ bs)

unfoldable pub write_stream_info : StreamInfo → ℕ → ℕ → ℕ → ℕ → Writer → Writer
write_stream_info si min_block max_block min_frame max_frame w = write_bytes si.md5 (
    write_bits si.total_samples 36 (
      write_bits (sub64 si.bit_depth 1) 5 (
        write_bits (sub64 si.channels 1) 3 (
          write_bits si.sample_rate 20 (
            write_bits max_frame 24
              (write_bits min_frame 24 (write_bits max_block 16 (write_bits min_block 16 w))))))))

unfoldable pub encode_stream_info : StreamInfo → ℕ → ℕ → ℕ → ℕ → List ℕ
unfolding write_stream_info
encode_stream_info si min_block max_block min_frame max_frame =
    (bytes (write_stream_info si min_block max_block min_frame max_frame new_writer)).0

-- The MD5 is read last, once the other fields are accepted.
unfoldable pub read_md5 : ℕ → ℕ → ℕ → ℕ → ℕ → ℕ → ℕ → M Fields
read_md5 min_block max_block max_frame rate ch bps total = do
  md5 ← read_raw 16
  pure (record {
    info = record {
      sample_rate = rate;
      channels = ch + 1;
      bit_depth = bps + 1;
      total_samples = total;
      md5 = md5;
    };
    min_block = min_block;
    max_block = max_block;
    max_frame = max_frame;
  })

unfoldable pub read_stream_info : M Fields
unfolding read_md5
read_stream_info = do
  mnb ← read_bits 16
  mxb ← read_bits 16
  _ ← read_bits 24
  mxf ← read_bits 24
  rate ← read_bits 20
  ch ← read_bits 3
  bps ← read_bits 5
  total ← read_bits 36
  if rate == 0 || ltb bps 3 then fail unsupported else read_md5 mnb mxb mxf rate ch bps total

-- A body of another length is an error with no sentinel.
pub data DecodeResult : Type 0 where
  decoded : StreamInfo → DecodeResult
  bad_length : DecodeResult
  failed : Error → DecodeResult

abbrev pub only_info : Run Fields → DecodeResult
only_info (ok f b) = decoded f.info
only_info (err e b) = failed e

unfoldable pub decode_stream_info : List ℕ → DecodeResult
unfolding read_stream_info
decode_stream_info body =
    if length body == stream_info_body_len
    then only_info (read_stream_info (new_reader (source_of body)))
    else bad_length

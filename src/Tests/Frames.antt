-- ===== src/Tests/Frames.antt =====
-- internal/frame at concrete inputs.
use go_flac.Prelude.{ℕ, ◌≡◌, refl, false, some, replicate, arith}
use go_flac.Bitio.Writer.{Writer}
use go_flac.Meta.StreamInfo.{StreamInfo}
use go_flac.Frame.Header.{
  FieldCode, block_size_code, decode_block_size, sample_rate_code, decode_sample_rate,
}
use go_flac.Frame.Header.Codes.{Recovers, block_size_code-Recovers, sample_rate_code-Recovers}
use go_flac.Frame.Header.Fields.{write_header_fields, read_header_fields}
use go_flac.Frame.Header.Fields.RoundTrip.{read-write_header_fields}
use go_flac.Bitio.RoundTrip.{RoundTrip}
use go_flac.Frame.CodedNumber.{write_utf8, read_coded_number}
use go_flac.Frame.CodedNumber.RoundTrip.{coded_width, read-write_coded_number}

read-write_coded_number_example :
    RoundTrip (coded_width 0x20ac) (write_utf8 0x20ac) read_coded_number 0x20ac
read-write_coded_number_example = read-write_coded_number 0x20ac (omega arith)

abbrev stereo_48k : StreamInfo
stereo_48k = record {
  sample_rate = 48000;
  channels = 2;
  bit_depth = 24;
  total_samples = 0;
  md5 = replicate 16 0;
}

-- Mid/side blocks of 1000 samples.
read-write_header_fields_example :
    (e : Writer → Writer) × (write_header_fields 1000 10 48000 24 77 ≡ some e)
    × ((n : ℕ) × RoundTrip n e (read_header_fields stereo_48k) (record {
      variable_block_size = false;
      block_size = 1000;
      sample_rate = 48000;
      channel_assignment = 10;
      bits_per_sample = 24;
      number = 77;
    }))
read-write_header_fields_example =
    read-write_header_fields stereo_48k 1000 10 77 (omega arith) (omega arith) (omega arith)
      (omega arith) (omega arith)

block_size_code-Recovers_example : Recovers (block_size_code 300) decode_block_size 300
block_size_code-Recovers_example = block_size_code-Recovers 300 (omega arith) (omega arith)

sample_rate_code-Recovers_example :
    (c : FieldCode) × (sample_rate_code 48000 ≡ some c)
    × Recovers c (λ k. decode_sample_rate k stereo_48k) 48000
sample_rate_code-Recovers_example = sample_rate_code-Recovers 48000 stereo_48k (omega arith) refl

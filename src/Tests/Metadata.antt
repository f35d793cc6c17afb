-- ===== src/Tests/Metadata.antt =====
-- internal/meta at concrete inputs.
use go_flac.Prelude.{◌≡◌, refl, arith, length, replicate}
use go_flac.Meta.StreamInfo.{StreamInfo, encode_stream_info, decode_stream_info, decoded}
use go_flac.Meta.StreamInfo.RoundTrip.{IsEncodable, decode-encode_stream_info}
use go_flac.Prelude.{some, ◌*◌, All, List, ◌∷◌, []}
use go_flac.Meta.SeekTable.{
  SeekPoint, placeholder_sample_number, encode_seek_points, parse_seek_table,
}
use go_flac.Meta.SeekTable.RoundTrip.{
  IsEncodablePoint, real_points, parse_seek_table-encode_seek_points,
}
use go_flac.Meta.VorbisComment.{encode_vorbis_comment, parse_vorbis_comment}
use go_flac.Meta.VorbisComment.RoundTrip.{parse_vorbis_comment-encode_vorbis_comment}

abbrev cd_audio : StreamInfo
cd_audio = record {
  sample_rate = 44100;
  channels = 2;
  bit_depth = 16;
  total_samples = 1000000;
  md5 = replicate 16 0xab;
}

cd_audio-IsEncodable : IsEncodable cd_audio 4096 4096 14 8000
cd_audio-IsEncodable = record {
  rate_pos = omega arith;
  rate_lt = omega arith;
  channels_pos = omega arith;
  channels_le = omega arith;
  depth_ge = omega arith;
  depth_le = omega arith;
  total_lt = omega arith;
  md5_length = refl;
  md5_bytes = omega arith;
  min_block_lt = omega arith;
  max_block_lt = omega arith;
  min_frame_lt = omega arith;
  max_frame_lt = omega arith;
}

decode-encode_stream_info_example :
    (length (encode_stream_info cd_audio 4096 4096 14 8000) ≡ 34)
    × (decode_stream_info (encode_stream_info cd_audio 4096 4096 14 8000) ≡ decoded cd_audio)
decode-encode_stream_info_example =
    decode-encode_stream_info cd_audio 4096 4096 14 8000 cd_audio-IsEncodable

-- Two points, and a placeholder between them.
abbrev points : List SeekPoint
points =
    record { sample_number = 0; byte_offset = 0; frame_samples = 4096 }
    ∷ record { sample_number = placeholder_sample_number; byte_offset = 0; frame_samples = 0 }
    ∷ record { sample_number = 4096; byte_offset = 9000; frame_samples = 4096 }
    ∷ []

points-IsEncodable : All IsEncodablePoint points
points-IsEncodable = (
  record { number_lt = omega arith; offset_lt = omega arith; samples_lt = omega arith },
  (
    record { number_lt = omega arith; offset_lt = omega arith; samples_lt = omega arith },
    (record { number_lt = omega arith; offset_lt = omega arith; samples_lt = omega arith }, tt),
  ),
)

parse_seek_table-encode_seek_points_example :
    (parse_seek_table (encode_seek_points points) ≡ some (real_points points))
    × (length (encode_seek_points points) ≡ length points * 18)
parse_seek_table-encode_seek_points_example =
    parse_seek_table-encode_seek_points points points-IsEncodable

-- "go", with the comments "A=1" and "".
parse_vorbis_comment-encode_vorbis_comment_example :
    parse_vorbis_comment
      (encode_vorbis_comment (0x67 ∷ 0x6f ∷ []) ((0x41 ∷ 0x3d ∷ 0x31 ∷ []) ∷ [] ∷ []))
    ≡ some ((0x67 ∷ 0x6f ∷ [], (0x41 ∷ 0x3d ∷ 0x31 ∷ []) ∷ [] ∷ []), [])
parse_vorbis_comment-encode_vorbis_comment_example =
    parse_vorbis_comment-encode_vorbis_comment (0x67 ∷ 0x6f ∷ [])
      ((0x41 ∷ 0x3d ∷ 0x31 ∷ []) ∷ [] ∷ []) (omega arith) (omega arith)
      (omega arith, (omega arith, tt))

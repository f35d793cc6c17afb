-- ===== src/Tests/Safety.antt =====
-- The channels of a frame decoded from bytes.
use go_flac.Prelude.{ℕ, ◌≡◌, refl, List, [], ◌∷◌, All, some, arith}
use go_flac.Signed.{Fits}
use go_flac.Bitio.Reader.{Reader, Run, ok, err, new_reader}
use go_flac.Bitio.RoundTrip.{source_of}
use go_flac.Frame.Decode.{decode_channels}
use go_flac.Frame.Decode.Safe.{decode_channels-Fits}

-- Two constant subframes: left is 5 in 8 bits, side 1 in 9.
abbrev stereo_bytes : List ℕ
stereo_bytes = 0x00 ∷ 0x05 ∷ 0x00 ∷ 0x00 ∷ 0x80 ∷ []

abbrev stereo_reader : Reader
stereo_reader = new_reader (source_of stereo_bytes)

abbrev left_right : List (List ℕ)
left_right = (5 ∷ 5 ∷ 5 ∷ []) ∷ (4 ∷ 4 ∷ 4 ∷ []) ∷ []

abbrev left_over : {A : Type 0} → Run A → Reader
left_over (ok a b) = b
left_over (err e b) = b

abbrev stereo_end : Reader
unfolding decode_channels
stereo_end = left_over (decode_channels 7 8 3 8 stereo_reader)

stereo_decoded : decode_channels 7 8 3 8 stereo_reader ≡ ok (some left_right) stereo_end
unfolding decode_channels go_flac.Bitio.Reader.Read.read_bits new_reader go_flac.Bitio.Reader.refill
    go_flac.Bitio.Reader.compact go_flac.Bitio.Reader.flush_tap go_flac.Bitio.Source.read
    go_flac.Bitio.Reader.Read.read_signed go_flac.I32.sub go_flac.Bitio.Reader.Read.sign_extend
stereo_decoded = refl

decode_channels-Fits_example : All (All (Fits 32 8)) left_right
decode_channels-Fits_example =
    decode_channels-Fits 7 8 3 8 stereo_reader stereo_end left_right (omega arith) (omega arith)
      stereo_decoded

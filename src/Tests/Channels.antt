-- ===== src/Tests/Channels.antt =====
-- The channels of a frame at concrete inputs.
use go_flac.Prelude.{
  ℕ, ◌+◌, ◌-◌, ◌%◌, ◌^◌, ◌++◌, none, ◌<◌, ◌≡◌, ◌↔◌, refl, inl, List, [], ◌∷◌, All, true, false,
  arith, some, length, replicate, get_or,
}
use go_flac.Signed.{Fits}
use go_flac.Bitio.RoundTrip.{RoundTrip}
use go_flac.Rice.{widen, zigzag}
use go_flac.Bitstream.{to_bits, bytes_bits}
use go_flac.Bitio.Reader.{Reader, new_reader, flush_tap}
use go_flac.Bitio.Reader.Read.{skip_to_byte_boundary}
use go_flac.Bitio.Reader.Pending.{pending, held, coming}
use go_flac.Bitio.RoundTrip.{source_of, new_reader-IsValid}
use go_flac.Frame.Encode.Wasted.{wasted_bits-divides}
use go_flac.Frame.Decode.Verdict.{outcome, finish_decode-outcome}
use go_flac.Frame.Subframe.Write.{
  constant, verbatim, SubframePlan, wasted_bits, all_equal, residuals_in_range,
}
use go_flac.Frame.Encode.{sides, upcast, Candidates, choose_channels, write_pair, write_channels}
use go_flac.Frame.Encode.Choice.{
  IsFirstLeast, cost, choose_channels_least, all_equal_lem, residuals_in_range_iff,
}
use go_flac.Frame.Decode.{finish_decode, decode_stereo_decorrelated, decode_independent}
use go_flac.Frame.Decode.Channels.{left_side, IsWritten, bits_of}
use go_flac.Frame.Decode.Stereo.{decode_stereo_decorrelated-write_pair}
use go_flac.Frame.Decode.Wide.{decode_stereo_decorrelated-write_pair64}
use go_flac.Frame.Decode.Independent.{channels_bits, decode_independent-write_channels}
use go_flac.Tests.Subframes.{
  samples, plan, samples-IsSample, plan-IsPlanOf, samples-Fits, samples-Words,
}

samples-IsWritten : IsWritten 32 8 15 samples plan
samples-IsWritten = record {
  wasted_lt = omega arith;
  samples = samples-IsSample;
  planned = plan-IsPlanOf;
}

decode_independent-write_channels_example :
    RoundTrip
      (channels_bits 8 15 4 (plan ∷ plan ∷ []))
      (write_channels 32 8 15 (samples ∷ samples ∷ []) (plan ∷ plan ∷ []))
      (decode_independent 7 4 8 2)
      (some (samples ∷ samples ∷ []))
decode_independent-write_channels_example =
    decode_independent-write_channels 7 8 15 4 (samples ∷ samples ∷ []) (plan ∷ plan ∷ [])
      (omega arith) (omega arith)
      (refl, samples-Words, samples-IsWritten, (refl, samples-Words, samples-IsWritten, tt))

-- The side channel of two equal channels is zero.
abbrev side_plan : SubframePlan
side_plan = record plan { kind = constant; wasted = 0; bits = 17 }

abbrev verbatim_plan : SubframePlan
verbatim_plan = record plan { kind = verbatim; wasted = 0; bits = 108 }

abbrev candidates : Candidates
candidates = record { plan_l = plan; plan_r = plan; plan_m = plan; plan_s = side_plan }

side-IsWritten : IsWritten 32 9 15 (sides 32 samples samples) side_plan
unfolding sides
side-IsWritten = record {
  wasted_lt = omega arith;
  samples = (
    (refl, (omega arith, inl (omega arith))),
    (
      (refl, (omega arith, inl (omega arith))),
      ((refl, (omega arith, inl (omega arith))), ((refl, (omega arith, inl (omega arith))), tt)),
    ),
  );
  planned = refl;
}

decode_stereo_decorrelated-write_pair_example :
    RoundTrip
      (bits_of 8 15 4 plan + bits_of 9 15 4 side_plan)
      (write_pair 32 8 15 8 samples samples candidates)
      (decode_stereo_decorrelated 7 8 4 8)
      (samples, samples)
decode_stereo_decorrelated-write_pair_example =
    decode_stereo_decorrelated-write_pair 7 8 15 left_side samples samples candidates (omega arith)
      (omega arith) (omega arith) refl samples-Fits samples-Fits samples-IsWritten side-IsWritten

abbrev wide_candidates : Candidates
wide_candidates = record candidates { plan_l = verbatim_plan }

wide-Fits : All (Fits 32 25) samples
wide-Fits = (
  (omega arith, inl (omega arith)),
  (
    (omega arith, inl (omega arith)),
    ((omega arith, inl (omega arith)), ((omega arith, inl (omega arith)), tt)),
  ),
)

wide-IsWritten : IsWritten 64 25 15 (upcast samples) verbatim_plan
unfolding widen
wide-IsWritten = record {
  wasted_lt = omega arith;
  samples = (
    (refl, (omega arith, inl (omega arith))),
    (
      (refl, (omega arith, inl (omega arith))),
      ((refl, (omega arith, inl (omega arith))), ((refl, (omega arith, inl (omega arith))), tt)),
    ),
  );
  planned = tt;
}

wide_side-IsWritten : IsWritten 64 26 15 (sides 64 (upcast samples) (upcast samples)) side_plan
unfolding sides widen
wide_side-IsWritten = record {
  wasted_lt = omega arith;
  samples = (
    (refl, (omega arith, inl (omega arith))),
    (
      (refl, (omega arith, inl (omega arith))),
      ((refl, (omega arith, inl (omega arith))), ((refl, (omega arith, inl (omega arith))), tt)),
    ),
  );
  planned = refl;
}

decode_stereo_decorrelated-write_pair64_example :
    RoundTrip
      (bits_of 25 15 4 verbatim_plan + bits_of 26 15 4 side_plan)
      (write_pair 64 25 15 8 (upcast samples) (upcast samples) wide_candidates)
      (decode_stereo_decorrelated 7 8 4 25)
      (samples, samples)
decode_stereo_decorrelated-write_pair64_example =
    decode_stereo_decorrelated-write_pair64 7 25 15 left_side samples samples wide_candidates
      (omega arith) (omega arith) (omega arith) refl wide-Fits wide-Fits wide-IsWritten
      wide_side-IsWritten

choose_channels_least_example :
    IsFirstLeast (λ k. cost k candidates) (choose_channels false candidates) (1 ∷ 8 ∷ 9 ∷ 10 ∷ [])
    × IsFirstLeast (λ k. cost k candidates) (choose_channels true candidates) (1 ∷ 10 ∷ [])
choose_channels_least_example = choose_channels_least candidates

abbrev sevens : List ℕ
sevens = 7 ∷ 7 ∷ 7 ∷ []

all_equal_lem_example : sevens ≡ replicate (length sevens) (get_or sevens 0 0)
unfolding all_equal
all_equal_lem_example = all_equal_lem sevens refl

residuals_in_range_iff_example :
    (residuals_in_range (5 ∷ 2 ^ 40 ∷ []) ≡ true)
    ↔ All (λ r. zigzag 64 r < 2 ^ 32 - 1) (5 ∷ 2 ^ 40 ∷ [])
residuals_in_range_iff_example =
    residuals_in_range_iff (5 ∷ 2 ^ 40 ∷ []) (omega arith, (omega arith, tt))

wasted_bits-divides_example : All (λ x. x % 2 ^ wasted_bits 32 samples ≡ 0) samples
wasted_bits-divides_example = wasted_bits-divides 32 samples

-- A stored CRC-16 of 0x1234, and a sample out of range.
abbrev crc_reader : Reader
crc_reader = new_reader (source_of (0x12 ∷ 0x34 ∷ []))

no_padding : flush_tap (skip_to_byte_boundary crc_reader) ≡ crc_reader
unfolding flush_tap skip_to_byte_boundary new_reader
no_padding = refl

crc_pending : pending crc_reader ≡ to_bits 16 0x1234 ++ []
unfolding pending held coming new_reader to_bits bytes_bits go_flac.Bitio.Source.delivered
crc_pending = refl

finish_decode-outcome_example :
    (b : Reader) × (finish_decode (λ p. 0x1234) none crc_reader ≡ outcome 0x1234 0x1234 none b)
    × (pending b ≡ [])
finish_decode-outcome_example =
    finish_decode-outcome (λ p. 0x1234) none crc_reader crc_reader 0x1234 [] no_padding
      (new_reader-IsValid (source_of (0x12 ∷ 0x34 ∷ []))) (omega arith) crc_pending

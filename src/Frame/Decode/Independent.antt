-- ===== src/Frame/Decode/Independent.antt =====
-- Independent channels, on the `int32` path and on the wide one.
use go_flac.Prelude.{
  ℕ, suc, ◌+◌, ◌%◌, ◌^◌, ◌≤◌, ◌<◌, ◌≡◌, refl, inl, inr, List, [], ◌∷◌, All, length, map, leb,
  Bool-cases, arith, some, if◌then◌else◌,
}
use go_flac.Bitio.Writer.{Writer}
use go_flac.Bitio.Reader.{pure, ◌>>=◌}
use go_flac.Bitio.RoundTrip.{
  RoundTrip, RoundTrip-then, RoundTrip-end, RoundTrip-done, RoundTrip-width,
}
use go_flac.Lpc.Inverse.{narrow-widen}
use go_flac.Frame.Subframe.{decode_subframe}
use go_flac.Frame.Subframe.Write.{SubframePlan, write_subframe}
use go_flac.Frame.Subframe.Correct.{decode_subframe-write_subframe}
use go_flac.Frame.Encode.{upcast, write_channels}
use go_flac.Frame.Decode.{deferred, decode_channel, cons_both, decode_independent}
use go_flac.Frame.Decode.Channels.{IsWritten, bits_of, RoundTrip-verdict}
use go_flac.Frame.Decode.Wide.{length-upcast}

-- The bits of a frame's subframes.
abbrev pub channels_bits : ℕ → ℕ → ℕ → List SubframePlan → ℕ
channels_bits bps precision len [] = 0
channels_bits bps precision len (plan ∷ plans) =
    bits_of bps precision len plan + channels_bits bps precision len plans

-- What each path writes for a channel.
abbrev pub path_width : ℕ → ℕ
path_width bps = if leb 25 bps then 64 else 32

abbrev pub as_path : ℕ → List ℕ → List ℕ
as_path bps s = if leb 25 bps then upcast s else s

-- Each plan writes its channel of `len` samples.
abbrev pub AllWritten : ℕ → ℕ → ℕ → List (List ℕ) → List SubframePlan → Type 0
AllWritten bps precision len [] [] = Unit
AllWritten bps precision len (s ∷ ch) (plan ∷ plans) =
    (length s ≡ len)
    × All (λ x. x < 2 ^ 32) s
    × IsWritten (path_width bps) bps precision (as_path bps s) plan
    × AllWritten bps precision len ch plans
AllWritten bps precision len [] (plan ∷ plans) = ⊥
AllWritten bps precision len (s ∷ ch) [] = ⊥

downcast-upcast : (s : List ℕ) → All (λ x. x < 2 ^ 32) s → map (λ v. v % 2 ^ 32) (upcast s) ≡ s
downcast-upcast [] h = refl
downcast-upcast (x ∷ s) (hx, h) = rw (narrow-widen 32 x (inl refl) hx, downcast-upcast s h) refl

channel_route :
    (ceiling len bps : ℕ)
    → decode_channel ceiling len bps ≡ (
        if leb 25 bps
        then (decode_subframe 64 ceiling len bps >>= λ s. pure (map (λ v. v % 2 ^ 32) s))
        else decode_subframe 32 ceiling len bps)
unfolding decode_channel
channel_route ceiling len bps = refl

channel_RoundTrip :
    (ceiling bps precision : ℕ) (s : List ℕ) (plan : SubframePlan)
    → bps ≤ 32
    → 1 ≤ length s
    → All (λ x. x < 2 ^ 32) s
    → IsWritten (path_width bps) bps precision (as_path bps s) plan
    → RoundTrip
        (bits_of bps precision (length s) plan)
        (write_subframe (path_width bps) (as_path bps s) bps plan precision)
        (decode_channel ceiling (length s) bps)
        s
channel_RoundTrip ceiling bps precision s plan le pos words h = elim (Bool-cases (leb 25 bps)) [
  | inl wide ↦
      let written : IsWritten 64 bps precision (upcast s) plan = rw wide at h in
      let len = length-upcast s in
      let p =
        decode_subframe-write_subframe 64 ceiling bps precision (upcast s) plan (inr refl)
          (omega arith) (omega arith) written.wasted_lt (omega arith) written.samples
          written.planned in
      rw (channel_route ceiling (length s) bps, wide)
        (RoundTrip-width (omega arith) (
          RoundTrip-then {n = 0} {e' = λ b. b} _ (rw len at p)
            (RoundTrip-done _ (downcast-upcast s words))))
  | inr narrow ↦
      let written : IsWritten 32 bps precision s plan = rw narrow at h in
      rw (channel_route ceiling (length s) bps, narrow)
        (decode_subframe-write_subframe 32 ceiling bps precision s plan (inl refl) (omega arith)
          (omega arith) written.wasted_lt pos written.samples written.planned)
]

abbrev pub path_channels : ℕ → List (List ℕ) → List (List ℕ)
path_channels bps [] = []
path_channels bps (s ∷ ch) = as_path bps s ∷ path_channels bps ch

independent_suc :
    (ceiling len bps n : ℕ)
    → decode_independent ceiling len bps (suc n) ≡ (
        deferred (decode_channel ceiling len bps) >>= λ c.
        decode_independent ceiling len bps n >>= λ cs. pure (cons_both c cs))
unfolding decode_independent
independent_suc ceiling len bps n = refl

none_left :
    (ceiling len bps : ℕ) → RoundTrip 0 (λ b. b) (decode_independent ceiling len bps 0) (some [])
unfolding decode_independent
none_left ceiling len bps = RoundTrip-end (some [])

-- The channels of a frame without a stereo mode: `Decode` reads back each of the channels that
-- `EncodeFrame` writes, in `int64` for 25 bits and more and in `int32` for fewer, and exactly the bits
-- planned, for blocks of 1 sample or more and depths to 32, if each plan describes its channel.
pub decode_independent-write_channels :
    (ceiling bps precision len : ℕ) (ch : List (List ℕ)) (plans : List SubframePlan)
    → bps ≤ 32
    → 1 ≤ len
    → AllWritten bps precision len ch plans
    → RoundTrip
        (channels_bits bps precision len plans)
        (write_channels (path_width bps) bps precision (path_channels bps ch) plans)
        (decode_independent ceiling len bps (length ch))
        (some ch)
unfolding write_channels
decode_independent-write_channels ceiling bps precision len [] [] le pos h =
    none_left ceiling len bps
decode_independent-write_channels ceiling bps precision len [] (plan ∷ plans) le pos h = absurd h
decode_independent-write_channels ceiling bps precision len (s ∷ ch) [] le pos h = absurd h
decode_independent-write_channels ceiling bps precision len (s ∷ ch) (plan ∷ plans) le pos
      (same, words, written, h) =
    let p =
      RoundTrip-verdict
        (channel_RoundTrip ceiling bps precision s plan le (omega arith) words written) in
    let q = decode_independent-write_channels ceiling bps precision len ch plans le pos h in
    let rest : Writer → Writer =
      write_channels (path_width bps) bps precision (path_channels bps ch) plans in
    rw (independent_suc ceiling len bps (length ch)) (
      RoundTrip-then {e' = rest} _ (rw same at p) (
        RoundTrip-width (omega arith)
          (RoundTrip-then {n = 0} {e' = λ b. b} _ q (RoundTrip-end (some (s ∷ ch))))))

-- ===== src/Frame/Decode.antt =====
-- internal/frame/frame.go: the subframes of a frame, and `Decode` after its header. A channel is the
-- list of its samples, `int32` patterns; `ceiling` is the architecture's, see I32/Narrow.
pub mod Stereo64
pub mod Channels
pub mod Stereo
pub mod Wide
pub mod Independent
pub mod Verdict
pub mod Bounds
pub mod Safe
use go_flac.Prelude.{
  ℕ, zero, suc, ◌+◌, ◌-◌, ◌%◌, ◌^◌, List, [], ◌∷◌, Option, none, some, Bool, true, false, ◌&&◌,
  ◌==◌, leb, if◌then◌else◌, map,
}
use go_flac.Errors.{Error, subframe_out_of_range, sample_out_of_range, crc_mismatch, no_clean_end}
use go_flac.Bitio.Reader.{
  Reader, Run, ok, err, M, ◌>>=◌, ◌>>◌, pure, fail, flush_tap, switch_tap_to_deferred, set_tapper,
  clear_tapper,
}
use go_flac.Bitio.Reader.Read.{read_bits, skip_to_byte_boundary}
use go_flac.Frame.Header.Fields.{Header, committed, read_header_fields}
use go_flac.Crc.{checksum8}
use go_flac.Meta.StreamInfo.{StreamInfo}
use go_flac.Frame.Decorrelate.{decorrelate_left_side, decorrelate_right_side, decorrelate_mid_side}
use go_flac.Frame.Decode.Stereo64.{
  Derived, decorrelate_left_side64, decorrelate_right_side64, decorrelate_mid_side64,
}
use go_flac.Frame.Subframe.{in_range, decode_subframe}

abbrev pub Pair : Type 0
Pair = List ℕ × List ℕ

-- `decodeDeferred`: nothing where the subframe was read to its end, but is out of range.
abbrev pub verdict : {A : Type 0} → Run A → Run (Option A)
verdict (ok a b) = ok (some a) b
verdict (err subframe_out_of_range b) = ok none b
verdict (err e b) = err e b

abbrev pub deferred : {A : Type 0} → M A → M (Option A)
deferred m b = verdict (m b)

abbrev pub both : {A B : Type 0} → Option A → Option B → Option (A × B)
both (some a) (some b) = some (a, b)
both (some a) none = none
both none b = none

-- `decodePair`: the second subframe is read even if the first is out of range.
unfoldable pub decode_pair : ℕ → ℕ → ℕ → ℕ → ℕ → M (Option Pair)
unfolding decode_subframe
decode_pair w ceiling len wa wb = do
  a ← deferred (decode_subframe w ceiling len wa)
  b ← deferred (decode_subframe w ceiling len wb)
  pure (both a b)

abbrev pub in_bounds : Bool → Pair → M Pair
in_bounds fits p = if fits then pure p else fail subframe_out_of_range

-- The modes on the `int32` path: only a computed channel is tested.
unfoldable pub undo_stereo : ℕ → ℕ → Pair → M Pair
unfolding in_range decorrelate_left_side decorrelate_right_side decorrelate_mid_side
undo_stereo code bps p =
    if code == 8
    then (let q = decorrelate_left_side p.0 p.1 in in_bounds (in_range 32 q.1 bps) q)
    else if code == 9
    then (let q = decorrelate_right_side p.0 p.1 in in_bounds (in_range 32 q.0 bps) q)
    else (let q = decorrelate_mid_side p.0 p.1 in
        in_bounds (in_range 32 q.0 bps && in_range 32 q.1 bps) q)

abbrev pub derived : Derived → M Pair
derived d = in_bounds d.fits (d.left, d.right)

unfoldable pub undo_stereo64 : ℕ → ℕ → Pair → M Pair
unfolding decorrelate_left_side64 decorrelate_right_side64 decorrelate_mid_side64
undo_stereo64 code bps p =
    if code == 8
    then derived (decorrelate_left_side64 p.0 p.1 bps)
    else if code == 9
    then derived (decorrelate_right_side64 p.0 p.1 bps)
    else derived (decorrelate_mid_side64 p.0 p.1 bps)

abbrev pub when_in_range : (Pair → M Pair) → Option Pair → M Pair
when_in_range f none = fail subframe_out_of_range
when_in_range f (some p) = f p

-- `decodeStereoDecorrelated`, for the codes 8 to 10: the side channel has a bit more.
unfoldable pub decode_stereo_decorrelated : ℕ → ℕ → ℕ → ℕ → M Pair
unfolding decode_pair undo_stereo undo_stereo64
decode_stereo_decorrelated ceiling code len bps =
    let wa = if code == 9 then bps + 1 else bps in
    let wb = if code == 9 then bps else bps + 1 in
    if leb 25 bps
    then (decode_pair 64 ceiling len wa wb >>= when_in_range (undo_stereo64 code bps))
    else (decode_pair 32 ceiling len wa wb >>= when_in_range (undo_stereo code bps))

-- An independent channel; on the wide path it is narrowed to `int32`.
unfoldable pub decode_channel : ℕ → ℕ → ℕ → M (List ℕ)
unfolding decode_subframe
decode_channel ceiling len bps =
    if leb 25 bps
    then (decode_subframe 64 ceiling len bps >>= λ s. pure (map (λ v. v % 2 ^ 32) s))
    else decode_subframe 32 ceiling len bps

abbrev pub cons_both : Option (List ℕ) → Option (List (List ℕ)) → Option (List (List ℕ))
cons_both (some c) (some cs) = some (c ∷ cs)
cons_both (some c) none = none
cons_both none cs = none

-- All channels are read, also after one that is out of range.
unfoldable pub decode_independent : ℕ → ℕ → ℕ → ℕ → M (Option (List (List ℕ)))
unfolding decode_channel
decode_independent ceiling len bps zero = pure (some [])
decode_independent ceiling len bps (suc n) = do
  c ← deferred (decode_channel ceiling len bps)
  cs ← decode_independent ceiling len bps n
  pure (cons_both c cs)

abbrev pub two_channels : Option Pair → Option (List (List ℕ))
two_channels none = none
two_channels (some p) = some (p.0 ∷ p.1 ∷ [])

-- The channels of a frame; nothing if a sample is out of range.
unfoldable pub decode_channels : ℕ → ℕ → ℕ → ℕ → M (Option (List (List ℕ)))
unfolding decode_independent decode_stereo_decorrelated
decode_channels ceiling code len bps =
    if leb code 7
    then decode_independent ceiling len bps (code + 1)
    else (deferred (decode_stereo_decorrelated ceiling code len bps) >>= λ p. pure (two_channels p))

abbrev pub accept : Option (List (List ℕ)) → M (List (List ℕ))
accept none = fail sample_out_of_range
accept (some cs) = pure cs

-- The padding and the CRC-16 over what the tap has recorded, before the range verdict counts.
-- `checksum16` is `crc.Checksum16`.
unfoldable pub finish_decode : (List ℕ → ℕ) → Option (List (List ℕ)) → M (List (List ℕ))
unfolding flush_tap skip_to_byte_boundary
finish_decode checksum16 channels b =
    let t = flush_tap (skip_to_byte_boundary b) in
    (read_bits 16 >>= λ stored.
    if stored == checksum16 t.tapped then accept channels else fail crc_mismatch)
      t

abbrev pub truncated : {A : Type 0} → Run A → Run A
truncated (ok a b) = ok a b
truncated (err e b) = err (no_clean_end e) b

-- `Decode` after the header: an end of the stream is a truncated frame.
unfoldable pub decode_rest : ℕ → (List ℕ → ℕ) → Header → M (List (List ℕ))
unfolding decode_channels finish_decode switch_tap_to_deferred
decode_rest ceiling checksum16 hdr = λ b. truncated (
    (decode_channels ceiling hdr.channel_assignment hdr.block_size hdr.bits_per_sample
        >>= finish_decode checksum16)
      (switch_tap_to_deferred b))

-- The end of `readHeaderBody`: the CRC-8 over the bytes that the tap has seen.
unfoldable pub check_header : Header → M Header
unfolding checksum8
check_header hdr b =
    (read_bits 8 >>= λ stored. if stored == checksum8 b.tapped then pure hdr else fail crc_mismatch)
      b

unfoldable pub read_header : StreamInfo → M Header
unfolding read_header_fields check_header committed
read_header si = read_header_fields si >>= λ hdr. committed (check_header hdr)

-- What `Decode` leaves in the `Frame`.
pub record Frame : Type 0 where
  pub header : Header
  pub channels : List (List ℕ)

abbrev pub untap : {A : Type 0} → Run A → Run A
untap (ok a b) = ok a (clear_tapper b)
untap (err e b) = err e (clear_tapper b)

unfoldable pub decode : ℕ → (List ℕ → ℕ) → StreamInfo → M Frame
unfolding read_header decode_rest set_tapper
decode ceiling checksum16 si b = untap (
    (read_header si >>= λ hdr.
    decode_rest ceiling checksum16 hdr >>= λ cs. pure (record { header = hdr; channels = cs }))
      (set_tapper true b))

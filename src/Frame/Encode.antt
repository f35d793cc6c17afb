-- ===== src/Frame/Encode.antt =====
-- internal/frame/encode.go: the subframes of a frame and the choice among the stereo modes. The plans
-- of the candidates are arguments, and so is `p.LPCPrecision`, as `precision`.
pub mod Choice
pub mod Wasted
use go_flac.Prelude.{
  ℕ, ◌+◌, ◌-◌, ◌*◌, ◌/◌, ◌%◌, ◌^◌, List, [], ◌∷◌, Bool, true, false, ◌==◌, ltb, leb, if◌then◌else◌,
  map, drop, length, get_or, Option, none, some,
}
use go_flac.Signed.{add_w, sub_w, sar}
use go_flac.Bitio.Writer.{Writer, write_bits, align_byte, bytes}
use go_flac.I32.{zip_with}
use go_flac.Crc.{checksum8}
use go_flac.Frame.Header.Fields.{write_header_fields}
use go_flac.Rice.{widen}
use go_flac.Frame.Subframe.Write.{SubframePlan, write_subframe}

abbrev pub ch_independent2 : ℕ
ch_independent2 = 1

abbrev pub ch_left_side : ℕ
ch_left_side = 8

abbrev pub ch_right_side : ℕ
ch_right_side = 9

abbrev pub ch_mid_side : ℕ
ch_mid_side = 10

-- `frameByteBound`
unfoldable pub frame_byte_bound : ℕ → ℕ → ℕ → ℕ
frame_byte_bound nch bs bps = (nch * bs * (bps + 1) + nch * 8 + 128 + 16 + 8 + 7) / 8

abbrev pub side_of : ℕ → ℕ → ℕ → ℕ
side_of w l r = sub_w w l r

abbrev pub mid_of : ℕ → ℕ → ℕ → ℕ
mid_of w l r = sar w (add_w w l r) 1

-- The side and the mid channel.
unfoldable pub sides : ℕ → List ℕ → List ℕ → List ℕ
sides w l r = zip_with (side_of w) l r

unfoldable pub mids : ℕ → List ℕ → List ℕ → List ℕ
unfolding sar
mids w l r = zip_with (mid_of w) l r

-- The plans of the left, right, mid and side channels.
pub record Candidates : Type 0 where
  pub plan_l : SubframePlan
  pub plan_r : SubframePlan
  pub plan_m : SubframePlan
  pub plan_s : SubframePlan

-- `adaptive` is `p.Stereo == StereoAdaptive`.
unfoldable pub choose_channels : Bool → Candidates → ℕ
choose_channels adaptive c =
    let indep = c.plan_l.bits + c.plan_r.bits in
    let ls = c.plan_l.bits + c.plan_s.bits in
    let rs = c.plan_s.bits + c.plan_r.bits in
    let ms = c.plan_m.bits + c.plan_s.bits in
    let cost_ls = if ltb ls indep then ls else indep in
    let cost_rs = if ltb rs cost_ls then rs else cost_ls in
    if adaptive
    then (if ltb ms indep then ch_mid_side else ch_independent2)
    else if ltb ms cost_rs
    then ch_mid_side
    else if ltb rs cost_ls
    then ch_right_side
    else if ltb ls indep
    then ch_left_side
    else ch_independent2

-- The two subframes of a channel assignment.
unfoldable pub write_pair : ℕ → ℕ → ℕ → ℕ → List ℕ → List ℕ → Candidates → Writer → Writer
unfolding write_subframe sides mids
write_pair w bps precision code l r c =
    if code == ch_left_side
    then (λ b.
        write_subframe w (sides w l r) (bps + 1) c.plan_s precision
          (write_subframe w l bps c.plan_l precision b))
    else if code == ch_right_side
    then (λ b.
        write_subframe w r bps c.plan_r precision
          (write_subframe w (sides w l r) (bps + 1) c.plan_s precision b))
    else if code == ch_mid_side
    then (λ b.
        write_subframe w (sides w l r) (bps + 1) c.plan_s precision
          (write_subframe w (mids w l r) bps c.plan_m precision b))
    else (λ b.
        write_subframe w r bps c.plan_r precision (write_subframe w l bps c.plan_l precision b))

-- `int64(v)` of the samples, on the wide path.
abbrev pub upcast : List ℕ → List ℕ
upcast s = map (widen 32) s

-- Independent channels, each by its plan.
unfoldable pub write_channels : ℕ → ℕ → ℕ → List (List ℕ) → List SubframePlan → Writer → Writer
unfolding write_subframe
write_channels w bps precision (s ∷ ch) (plan ∷ plans) =
    λ b. write_channels w bps precision ch plans (write_subframe w s bps plan precision b)
write_channels w bps precision _ _ = λ b. b

-- `checksum16` is `crc.Checksum16`.
unfoldable pub finish_frame : (List ℕ → ℕ) → Writer → Writer
unfolding align_byte bytes
finish_frame checksum16 b = let out = bytes (align_byte b) in write_bits (checksum16 out.0) 16 out.1

abbrev pub on_some : {A B : Type 0} → (A → B) → Option A → Option B
on_some f none = none
on_some f (some a) = some (f a)

-- `writeFrameHeader`, with its CRC-8; nothing for a sample rate that it panics on.
unfoldable pub write_frame_header : ℕ → ℕ → ℕ → ℕ → ℕ → Option (Writer → Writer)
unfolding write_header_fields bytes checksum8
write_frame_header bs ch_code rate bps num =
    on_some
      (λ fields b.
        let start = bytes b in
        let out = bytes (fields start.1) in
        write_bits (checksum8 (drop (length start.0) out.0)) 8 out.1)
      (write_header_fields bs ch_code rate bps num)

-- A frame around what its subframes write.
abbrev pub frame_of :
    (List ℕ → ℕ) → Option (Writer → Writer) → (Writer → Writer) → Option (Writer → Writer)
frame_of checksum16 header body = on_some (λ h b. finish_frame checksum16 (body (h b))) header

-- `encodeStereo` at 32 bits and `encodeStereo64` at 64, on the channels of the path.
unfoldable pub encode_stereo :
    (List ℕ → ℕ)
    → ℕ
    → Bool
    → ℕ
    → ℕ
    → ℕ
    → List ℕ
    → List ℕ
    → Candidates
    → ℕ
    → Option (Writer → Writer)
unfolding write_frame_header write_pair choose_channels finish_frame
encode_stereo checksum16 w adaptive precision rate bps l r c num =
    let code = choose_channels adaptive c in
    frame_of checksum16 (write_frame_header (length l) code rate bps num)
      (write_pair w bps precision code l r c)

-- `p.Stereo`.
pub data StereoMode : Type 0 where
  independent adaptive full : StereoMode

-- What the planner gives: the candidates of a stereo frame, or a plan for each channel.
pub record Plans : Type 0 where
  pub candidates : Candidates
  pub each : List SubframePlan

abbrev pub upcast_all : List (List ℕ) → List (List ℕ)
upcast_all [] = []
upcast_all (s ∷ ch) = upcast s ∷ upcast_all ch

unfoldable pub encode_independent :
    (List ℕ → ℕ) → ℕ → ℕ → ℕ → List (List ℕ) → List SubframePlan → ℕ → Option (Writer → Writer)
unfolding write_frame_header write_channels finish_frame
encode_independent checksum16 precision rate bps ch plans num =
    let header = write_frame_header (length (get_or ch 0 [])) (length ch - 1) rate bps num in
    if leb 25 bps
    then frame_of checksum16 header (write_channels 64 bps precision (upcast_all ch) plans)
    else frame_of checksum16 header (write_channels 32 bps precision ch plans)

-- The body of `EncodeFrame` on a writer that it has reset: two channels, unless they are to be
-- independent, and any other number.
unfoldable pub encode_frame :
    (List ℕ → ℕ) → StereoMode → ℕ → ℕ → ℕ → List (List ℕ) → Plans → ℕ → Option (Writer → Writer)
unfolding encode_stereo encode_independent
encode_frame checksum16 full precision rate bps (l ∷ r ∷ []) plans num =
    if leb 25 bps
    then encode_stereo checksum16 64 false precision rate bps (upcast l) (upcast r) plans.candidates
        num
    else encode_stereo checksum16 32 false precision rate bps l r plans.candidates num
encode_frame checksum16 adaptive precision rate bps (l ∷ r ∷ []) plans num =
    if leb 25 bps
    then encode_stereo checksum16 64 true precision rate bps (upcast l) (upcast r) plans.candidates
        num
    else encode_stereo checksum16 32 true precision rate bps l r plans.candidates num
encode_frame checksum16 _ precision rate bps ch plans num =
    encode_independent checksum16 precision rate bps ch plans.each num

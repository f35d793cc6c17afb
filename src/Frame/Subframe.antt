-- ===== src/Frame/Subframe.antt =====
-- internal/frame/subframe.go: reading a subframe. The code is generic in the sample type, of `w`
-- bits: 32, or 64 for the wide path. A subframe is the list of its samples, of which the block
-- holds `len`. `ceiling` is the architecture's, see I32/Narrow.
pub mod Range
pub mod Write
pub mod RoundTrip
pub mod Prefix
pub mod Restored
pub mod Routes
pub mod Kinds
pub mod Plan
pub mod Correct
pub mod Checked
pub mod Safe
use go_flac.Prelude.{
  ℕ, ◌+◌, ◌-◌, ◌*◌, ◌%◌, ◌^◌, List, [], ◌∷◌, ◌++◌, Bool, true, false, not, ◌&&◌, ◌||◌, ltb, leb,
  ◌==◌, if◌then◌else◌, map, replicate, drop,
}
use go_flac.Signed.{shl_w, less}
use go_flac.Errors.{Error, unsupported, residual_range, subframe_out_of_range}
use go_flac.Bitio.Reader.{M, Run, ok, err, ◌>>=◌, ◌>>◌, pure, fail}
use go_flac.Bitio.Reader.Read.{read_bits, read_signed, read_unary}
use go_flac.I32.Range.{min_max}
use go_flac.Lpc.{restore_fixed, restore_lpc}
use go_flac.Lpc.Dispatch.{restore_fixed32, restore_lpc32}
use go_flac.Rice.{decode_residual, read_raws}

unfoldable pub read_wasted_bits : M ℕ
read_wasted_bits = do
  flag ← read_bits 1
  if flag == 0
      then pure 0
      else (read_unary >>= λ q. if leb 32 q then fail unsupported else pure (q + 1))

unfoldable pub decode_warmup : ℕ → ℕ → ℕ → ℕ → M (List ℕ)
unfolding read_raws
decode_warmup w len order bps = if ltb len order then fail unsupported else read_raws w bps order

abbrev pub defer_range : {A : Type 0} → Run A → Run A
defer_range (ok a b) = ok a b
defer_range (err residual_range b) = err subframe_out_of_range b
defer_range (err e b) = err e b

-- `decodeResidual`
unfoldable pub decode_subframe_residual : ℕ → ℕ → ℕ → M (List ℕ)
unfolding decode_residual
decode_subframe_residual w len order = λ b. defer_range (decode_residual w len order b)

-- `x < -lim || x >= lim` on `int64`.
abbrev pub out_of_range : ℕ → ℕ → Bool
out_of_range lim x = less 64 x (2 ^ 64 - lim) || not (less 64 x lim)

abbrev pub all_in_range : ℕ → List ℕ → Bool
all_in_range lim [] = true
all_in_range lim (x ∷ xs) = if out_of_range lim x then false else all_in_range lim xs

unfoldable pub in_range : ℕ → List ℕ → ℕ → Bool
unfolding min_max
in_range w s bits =
    let lim = 2 ^ (bits - 1) in
    if w == 32
    then if leb 32 bits
      then true
      else (let b = min_max s in not (less 32 b.0 (2 ^ 32 - lim)) && less 32 b.1 lim)
    else all_in_range lim s

-- `restoreFixed`, which chooses the kernel by the sample type.
unfoldable pub restore_fixed_by : ℕ → List ℕ → ℕ → List ℕ
unfolding restore_fixed32 restore_fixed
restore_fixed_by w dst order =
    if order == 0
    then dst
    else if w == 32
    then restore_fixed32 dst order
    else restore_fixed w order dst

-- `restoreLPC`
unfoldable pub restore_lpc_by : ℕ → ℕ → List ℕ → List ℕ → ℕ → ℕ → List ℕ
unfolding restore_lpc32 restore_lpc
restore_lpc_by w ceiling dst coeffs shift bps =
    if w == 32 then restore_lpc32 ceiling dst coeffs shift bps else restore_lpc w coeffs shift dst

-- What follows the warm-up of an LPC subframe.
unfoldable pub read_lpc_rest : ℕ → ℕ → ℕ → ℕ → ℕ → List ℕ → M (List ℕ)
unfolding read_raws decode_subframe_residual restore_lpc_by
read_lpc_rest w ceiling len order bps warmup = do
  prec_code ← read_bits 4
  if prec_code == 0x0f
      then fail unsupported
      else (read_signed 5 >>= λ shift.
          if leb (2 ^ 63) shift
          then fail unsupported
          else (read_raws 32 (prec_code + 1) order >>= λ coeffs.
              decode_subframe_residual w len order >>= λ res.
              pure (restore_lpc_by w ceiling (warmup ++ res) coeffs shift bps)))

unfoldable pub decode_lpc : ℕ → ℕ → ℕ → ℕ → ℕ → M (List ℕ)
unfolding decode_warmup read_lpc_rest
decode_lpc w ceiling len order bps =
    decode_warmup w len order bps >>= λ warmup. read_lpc_rest w ceiling len order bps warmup

-- The samples past the warm-up must fit the width.
unfoldable pub checked : ℕ → ℕ → ℕ → List ℕ → M (List ℕ)
unfolding in_range
checked w order bps dst =
    if in_range w (drop order dst) bps then pure dst else fail subframe_out_of_range

unfoldable pub decode_fixed : ℕ → ℕ → ℕ → ℕ → M (List ℕ)
unfolding decode_warmup decode_subframe_residual restore_fixed_by checked
decode_fixed w len order bps = do
  warmup ← decode_warmup w len order bps
  res ← decode_subframe_residual w len order
  checked w order bps (restore_fixed_by w (warmup ++ res) order)

unfoldable pub decode_constant : ℕ → ℕ → ℕ → M (List ℕ)
decode_constant w len bps = do v ← read_signed bps; pure (replicate len (v % 2 ^ w))

-- The switch over the type code.
unfoldable pub decode_kind : ℕ → ℕ → ℕ → ℕ → ℕ → M (List ℕ)
unfolding decode_constant read_raws decode_fixed decode_lpc checked
decode_kind w ceiling len stype bps =
    if stype == 0
    then decode_constant w len bps
    else if stype == 1
    then read_raws w bps len
    else if leb 8 stype && leb stype 12
    then decode_fixed w len (stype - 8) bps
    else if leb 32 stype
    then (decode_lpc w ceiling len (stype - 31) bps >>= λ dst. checked w (stype - 31) bps dst)
    else fail unsupported

unfoldable pub shift_back : ℕ → ℕ → List ℕ → List ℕ
shift_back w wasted dst = if ltb 0 wasted then map (λ x. shl_w w x wasted) dst else dst

-- What follows the padding bit.
unfoldable pub decode_body : ℕ → ℕ → ℕ → ℕ → M (List ℕ)
unfolding read_wasted_bits decode_kind shift_back
decode_body w ceiling len bps = do
  stype ← read_bits 6
  wasted ← read_wasted_bits
  if leb bps wasted
      then fail unsupported
      else (decode_kind w ceiling len stype (bps - wasted) >>= λ dst.
          pure (shift_back w wasted dst))

-- `decodeSubframeT`
unfoldable pub decode_subframe : ℕ → ℕ → ℕ → ℕ → M (List ℕ)
unfolding decode_body
decode_subframe w ceiling len bps = do
  pad ← read_bits 1
  if pad == 0 then decode_body w ceiling len bps else fail unsupported

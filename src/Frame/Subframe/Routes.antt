-- ===== src/Frame/Subframe/Routes.antt =====
-- What each choice of the subframe code stands for, as an equation.
use go_flac.Prelude.{
  ℕ, ◌+◌, ◌-◌, ◌≤◌, ◌≡◌, refl, ◌∙◌, List, true, false, leb, ◌==◌, ◌&&◌, if◌then◌else◌, arith,
}
use go_flac.Errors.{unsupported}
use go_flac.Bitio.Reader.{◌>>=◌, fail}
use go_flac.Rice.{read_raws}
use go_flac.Lpc.{restore_fixed, restore_lpc}
use go_flac.Lpc.Dispatch.{restore_fixed32, restore_lpc32}
use go_flac.Frame.Subframe.{
  restore_fixed_by, restore_lpc_by, decode_lpc, checked, decode_fixed, decode_constant, decode_kind,
}

pub fixed_route :
    (w : ℕ) (dst : List ℕ) (order : ℕ)
    → restore_fixed_by w dst order ≡ (
        if order == 0
        then dst
        else if w == 32
        then restore_fixed32 dst order
        else restore_fixed w order dst)
unfolding restore_fixed_by
fixed_route w dst order = refl

pub lpc_route :
    (w ceiling : ℕ) (dst coeffs : List ℕ) (shift bps : ℕ)
    → restore_lpc_by w ceiling dst coeffs shift bps ≡ (
        if w == 32
        then restore_lpc32 ceiling dst coeffs shift bps
        else restore_lpc w coeffs shift dst)
unfolding restore_lpc_by
lpc_route w ceiling dst coeffs shift bps = refl

pub kind_route :
    (w ceiling len stype bps : ℕ)
    → decode_kind w ceiling len stype bps ≡ (
        if stype == 0
        then decode_constant w len bps
        else if stype == 1
        then read_raws w bps len
        else if leb 8 stype && leb stype 12
        then decode_fixed w len (stype - 8) bps
        else if leb 32 stype
        then (decode_lpc w ceiling len (stype - 31) bps >>= λ dst. checked w (stype - 31) bps dst)
        else fail unsupported)
unfolding decode_kind
kind_route w ceiling len stype bps = refl

pub decode_kind-fixed :
    (w ceiling len order bps : ℕ)
    → order ≤ 4
    → decode_kind w ceiling len (8 + order) bps ≡ decode_fixed w len order bps
decode_kind-fixed w ceiling len order bps le =
    let a : (8 + order == 0) ≡ false = ground arith in
    let b : (8 + order == 1) ≡ false = ground arith in
    let c : leb 8 (8 + order) && leb (8 + order) 12 ≡ true = ground arith in
    let d : 8 + order - 8 ≡ order = omega arith in
    kind_route w ceiling len (8 + order) bps ∙ rw (a, b, c, d) refl

pub decode_kind-lpc :
    (w ceiling len order bps : ℕ)
    → 1 ≤ order
    → decode_kind w ceiling len (31 + order) bps
      ≡ (decode_lpc w ceiling len order bps >>= λ dst. checked w order bps dst)
decode_kind-lpc w ceiling len order bps pos =
    let a : (31 + order == 0) ≡ false = ground arith in
    let b : (31 + order == 1) ≡ false = ground arith in
    let c : leb 8 (31 + order) && leb (31 + order) 12 ≡ false = ground arith in
    let d : leb 32 (31 + order) ≡ true = ground arith in
    let e : 31 + order - 31 ≡ order = omega arith in
    kind_route w ceiling len (31 + order) bps ∙ rw (a, b, c, d, e) refl

-- ===== src/Frame/Decode/Safe.antt =====
-- What a frame decodes to fits the depth, whatever the input.
use go_flac.Prelude.{
  ℕ, zero, suc, ◌+◌, ◌%◌, ◌^◌, ◌≤◌, ◌<◌, ◌≡◌, refl, inl, inr, List, [], ◌∷◌, All, map, Option, none,
  some, leb, ◌==◌, arith, if◌then◌else◌,
}
use go_flac.Errors.{subframe_out_of_range}
use go_flac.Signed.{Fits}
use go_flac.Bitio.Reader.{Reader, Run, ok, err, M, pure, ◌>>=◌}
use go_flac.Bitio.Reader.Every.{Returns, Every, Every-then, Every-if, Every-test}
use go_flac.Rice.Fold.{IsWidth}
use go_flac.Frame.Subframe.{decode_subframe}
use go_flac.Frame.Subframe.Safe.{decode_subframe-Fits}
use go_flac.Frame.Decode.{
  Pair, verdict, deferred, both, decode_pair, undo_stereo, undo_stereo64, when_in_range,
  decode_stereo_decorrelated, decode_channel, cons_both, decode_independent, two_channels,
  decode_channels,
}
use go_flac.Frame.Decode.Bounds.{narrowed, Both, undo64-Both, undo-Both}

-- Of a value that may be missing.
abbrev Has : {A : Type 0} → (A → Type 0) → Option A → Type 0
Has P none = Unit
Has P (some a) = P a

deferred-Has : {A : Type 0} (P : A → Type 0) (m : M A) → Every P m → Every (Has P) (deferred m)
deferred-Has P m h b = go (m b) (h b)
  where
    go : (r : Run _) → Returns P r → Returns (Has P) (verdict r)
    go (ok a t) p = p
    go (err subframe_out_of_range t) p = tt
    go (err e t) p = tt

-- Both channels of a pair, each in its width.
abbrev Pairwise : ℕ → ℕ → ℕ → Pair → Type 0
Pairwise w wa wb p = All (Fits w wa) p.0 × All (Fits w wb) p.1

pair-Fits :
    (w ceiling len wa wb : ℕ)
    → IsWidth w
    → wa ≤ w
    → wb ≤ w
    → wa < 64
    → wb < 64
    → Every (Has (Pairwise w wa wb)) (decode_pair w ceiling len wa wb)
unfolding decode_pair
pair-Fits w ceiling len wa wb width la lb ta tb =
    Every-then (Has P) Q (deferred (decode_subframe w ceiling len wa))
      (λ a. deferred (decode_subframe w ceiling len wb) >>= λ b. pure (both a b))
      (deferred-Has P (decode_subframe w ceiling len wa)
        (decode_subframe-Fits w ceiling len wa width la ta))
      (λ a ha.
        Every-then (Has R) Q (deferred (decode_subframe w ceiling len wb)) (λ b. pure (both a b))
          (deferred-Has R (decode_subframe w ceiling len wb)
            (decode_subframe-Fits w ceiling len wb width lb tb))
          (λ b hb t. joined a b ha hb))
  where
    P : List ℕ → Type 0
    P = All (Fits w wa)

    R : List ℕ → Type 0
    R = All (Fits w wb)

    Q : Option Pair → Type 0
    Q = Has (Pairwise w wa wb)

    joined : (a b : Option (List ℕ)) → Has P a → Has R b → Q (both a b)
    joined (some a) (some b) ha hb = (ha, hb)
    joined (some a) none ha hb = tt
    joined none b ha hb = tt

stereo-Fits :
    (ceiling code len bps : ℕ)
    → 1 ≤ bps
    → bps ≤ 32
    → Every (Both bps) (decode_stereo_decorrelated ceiling code len bps)
unfolding decode_stereo_decorrelated
stereo-Fits ceiling code len bps pos le =
    Every-test (Both bps) (leb 25 bps) (decode_pair 64 ceiling len wa wb >>= when_in_range _) _
      (λ e.
        run 64 (inr refl) (omega arith) (omega arith) (undo_stereo64 code bps)
          (undo64-Both bps pos le code))
      (λ e.
        run 32 (inl refl) (ground arith) (omega arith) (undo_stereo code bps)
          (undo-Both bps pos le code))
  where
    wa : ℕ
    wa = if code == 9 then bps + 1 else bps

    wb : ℕ
    wb = if code == 9 then bps else bps + 1

    run :
        (w : ℕ)
        → IsWidth w
        → bps + 1 ≤ w
        → bps + 1 < 64
        → (f : Pair → M Pair)
        → ((p : Pair)
            → (code ≡ 8 → All (Fits w bps) p.0)
            → (code ≡ 9 → All (Fits w bps) p.1)
            → Every (Both bps) (f p))
        → Every (Both bps) (decode_pair w ceiling len wa wb >>= when_in_range f)
    run w width room small f h =
        Every-then (Has (Pairwise w wa wb)) (Both bps) (decode_pair w ceiling len wa wb)
          (when_in_range f)
          (pair-Fits w ceiling len wa wb width (ground arith) (ground arith) (ground arith)
            (ground arith))
          go
      where
        go : (q : Option Pair) → Has (Pairwise w wa wb) q → Every (Both bps) (when_in_range f q)
        go none k = λ b. tt
        go (some p) (ka, kb) =
            h p (λ e. let same : wa ≡ bps = ground arith in rw same at ka)
              (λ e. let same : wb ≡ bps = ground arith in rw same at kb)

channel-Fits :
    (ceiling len bps : ℕ)
    → 1 ≤ bps
    → bps ≤ 32
    → Every (All (Fits 32 bps)) (decode_channel ceiling len bps)
unfolding decode_channel
channel-Fits ceiling len bps pos le =
    Every-if P (leb 25 bps) (decode_subframe 64 ceiling len bps >>= low)
      (decode_subframe 32 ceiling len bps)
      (Every-then (All (Fits 64 bps)) P (decode_subframe 64 ceiling len bps) low
        (decode_subframe-Fits 64 ceiling len bps (inr refl) (omega arith) (omega arith))
        (λ s h b. all_narrowed s h))
      (decode_subframe-Fits 32 ceiling len bps (inl refl) le (omega arith))
  where
    P : List ℕ → Type 0
    P = All (Fits 32 bps)

    low : List ℕ → M (List ℕ)
    low s = pure (map (λ v. v % 2 ^ 32) s)

    all_narrowed : (s : List ℕ) → All (Fits 64 bps) s → P (map (λ v. v % 2 ^ 32) s)
    all_narrowed [] h = tt
    all_narrowed (x ∷ s) (f, h) = (narrowed bps x pos le f, all_narrowed s h)

-- All channels of a frame.
abbrev Fit : ℕ → List (List ℕ) → Type 0
Fit bps = All (All (Fits 32 bps))

independent-Fits :
    (ceiling len bps n : ℕ)
    → 1 ≤ bps
    → bps ≤ 32
    → Every (Has (Fit bps)) (decode_independent ceiling len bps n)
unfolding decode_independent
independent-Fits ceiling len bps zero pos le = λ b. tt
independent-Fits ceiling len bps (suc n) pos le =
    Every-then (Has P) Q (deferred (decode_channel ceiling len bps))
      (λ c. decode_independent ceiling len bps n >>= λ cs. pure (cons_both c cs))
      (deferred-Has P (decode_channel ceiling len bps) (channel-Fits ceiling len bps pos le))
      (λ c hc.
        Every-then Q Q (decode_independent ceiling len bps n) (λ cs. pure (cons_both c cs))
          (independent-Fits ceiling len bps n pos le) (λ cs hcs t. joined c cs hc hcs))
  where
    P : List ℕ → Type 0
    P = All (Fits 32 bps)

    Q : Option (List (List ℕ)) → Type 0
    Q = Has (Fit bps)

    joined :
        (c : Option (List ℕ)) (cs : Option (List (List ℕ))) → Has P c → Q cs → Q (cons_both c cs)
    joined (some c) (some cs) hc hcs = (hc, hcs)
    joined (some c) none hc hcs = tt
    joined none cs hc hcs = tt

channels-Fits :
    (ceiling code len bps : ℕ)
    → 1 ≤ bps
    → bps ≤ 32
    → Every (Has (Fit bps)) (decode_channels ceiling code len bps)
unfolding decode_channels
channels-Fits ceiling code len bps pos le =
    Every-if (Has (Fit bps)) (leb code 7) (decode_independent ceiling len bps (code + 1)) _
      (independent-Fits ceiling len bps (code + 1) pos le)
      (Every-then (Has (Both bps)) (Has (Fit bps))
        (deferred (decode_stereo_decorrelated ceiling code len bps)) (λ p. pure (two_channels p))
        (deferred-Has (Both bps) (decode_stereo_decorrelated ceiling code len bps)
          (stereo-Fits ceiling code len bps pos le))
        (λ p h b. listed p h))
  where
    listed : (p : Option Pair) → Has (Both bps) p → Has (Fit bps) (two_channels p)
    listed none h = tt
    listed (some p) (hl, hr) = (hl, (hr, tt))

-- Whatever the reader holds, if the channels of a frame of 1 to 32 bits are decoded and in range, then
-- every one of their samples fits in those bits.
pub decode_channels-Fits :
    (ceiling code len bps : ℕ) (b t : Reader) (channels : List (List ℕ))
    → 1 ≤ bps
    → bps ≤ 32
    → decode_channels ceiling code len bps b ≡ ok (some channels) t
    → All (All (Fits 32 bps)) channels
decode_channels-Fits ceiling code len bps b t channels pos le e =
    rw e at (channels-Fits ceiling code len bps pos le b)

-- ===== src/Frame/Decode/Verdict.antt =====
-- The order of the checks at the end of a frame.
use go_flac.Prelude.{
  ℕ, ◌^◌, ◌<◌, ◌≡◌, refl, ap, ◌∙◌, inl, inr, List, ◌++◌, Option, none, some, ◌==◌, Bool-cases,
  arith, if◌then◌else◌,
}
use go_flac.Errors.{sample_out_of_range, crc_mismatch}
use go_flac.Bitstream.{to_bits}
use go_flac.Bitio.Reader.{Reader, Run, ok, err, M, and_then, fail, flush_tap}
use go_flac.Bitio.Reader.Read.{read_bits, skip_to_byte_boundary}
use go_flac.Bitio.Reader.Pending.{pending, IsValid}
use go_flac.Bitio.Reader.Reads.{Reads-read_bits}
use go_flac.Frame.Decode.{accept, finish_decode}

-- What the caller gets: the CRC-16 counts before the range.
abbrev pub outcome : ℕ → ℕ → Option (List (List ℕ)) → Reader → Run (List (List ℕ))
outcome stored computed none b =
    err (if stored == computed then sample_out_of_range else crc_mismatch) b
outcome stored computed (some cs) b = if stored == computed then ok cs b else err crc_mismatch b

route :
    (checksum16 : List ℕ → ℕ) (channels : Option (List (List ℕ))) (b : Reader)
    → finish_decode checksum16 channels b
      ≡ and_then (read_bits 16 (flush_tap (skip_to_byte_boundary b))) (λ n.
        if n == checksum16 (flush_tap (skip_to_byte_boundary b)).tapped
        then accept channels
        else fail crc_mismatch)
unfolding finish_decode
route checksum16 channels b = refl

-- If the reader, past the padding, is valid and has the 16 bits of a stored CRC-16 pending, then the
-- end of `Decode` reads exactly them: a CRC-16 other than the one over the bytes that the tap has
-- recorded is reported whatever the samples are, a sample out of range only where the CRC-16 matches,
-- and the channels are returned where both are right.
pub finish_decode-outcome :
    (checksum16 : List ℕ → ℕ) (channels : Option (List (List ℕ))) (b t : Reader) (stored : ℕ)
    (rest : List ℕ)
    → flush_tap (skip_to_byte_boundary b) ≡ t
    → IsValid t
    → stored < 2 ^ 16
    → pending t ≡ to_bits 16 stored ++ rest
    → (b' : Reader) × (finish_decode checksum16 channels b
        ≡ outcome stored (checksum16 t.tapped) channels b')
      × (pending b' ≡ rest)
finish_decode-outcome checksum16 channels b t stored rest padded valid lt front =
    let (b', run, v, same) = Reads-read_bits 16 stored (omega arith) lt t rest valid front in
    let computed : ℕ = checksum16 t.tapped in
    let checks : ℕ → M (List (List ℕ)) =
      λ n. if n == computed then accept channels else fail crc_mismatch in
    (
      b',
      route checksum16 channels b
          ∙ ap
              (λ (u : Reader).
                and_then (read_bits 16 u)
                  (λ n. if n == checksum16 u.tapped then accept channels else fail crc_mismatch))
              padded
          ∙ ap (λ (r : Run ℕ). and_then r checks) run
          ∙ settled channels computed b',
      same,
    )
  where
    settled :
        (channels : Option (List (List ℕ))) (computed : ℕ) (b' : Reader)
        → (if stored == computed then accept channels else fail crc_mismatch) b'
          ≡ outcome stored computed channels b'
    settled none computed b' = elim (Bool-cases (stored == computed)) [
      | inl e ↦ rw e refl
      | inr e ↦ rw e refl
    ]
    settled (some cs) computed b' = elim (Bool-cases (stored == computed)) [
      | inl e ↦ rw e refl
      | inr e ↦ rw e refl
    ]

-- ===== src/Meta/Blocks.antt =====
-- internal/meta/meta.go: the stream marker and the chain of metadata blocks. Strings are lists of
-- bytes.
use go_flac.Prelude.{
  ℕ, zero, suc, ◌+◌, ◌*◌, ◌^◌, List, [], ◌∷◌, Option, none, some, Bool, true, false, ◌&&◌, ◌||◌,
  not, ◌==◌, if◌then◌else◌, bit_and, bit_or, take, get_or, length,
}
use go_flac.Errors.{no_clean_end, unsupported, missing_stream_info, stuck}
use go_flac.Bitio.Source
use go_flac.Bitio.Reader.{Run, ok, err, M, ◌>>=◌, pure, fail}
use go_flac.Bitio.Reader.Read.{read_bits}
use go_flac.Meta.StreamInfo.{StreamInfo, read_raw, read_stream_info}
use go_flac.Meta.SeekTable.{SeekPoint, parse_seek_table}
use go_flac.Meta.VorbisComment.{parse_vorbis_comment}

-- `StreamMeta`.
pub record StreamMeta : Type 0 where
  pub info : StreamInfo
  pub min_block : ℕ
  pub max_block : ℕ
  pub max_frame : ℕ
  pub seek_points : List SeekPoint
  pub vendor : List ℕ
  pub comments : List (List ℕ)

-- `StreamMeta{}`
abbrev pub empty_meta : StreamMeta
empty_meta = record {
  info = record { sample_rate = 0; channels = 0; bit_depth = 0; total_samples = 0; md5 = [] };
  min_block = 0;
  max_block = 0;
  max_frame = 0;
  seek_points = [];
  vendor = [];
  comments = [];
}

-- An end of file within is a truncated stream.
abbrev pub truncated : {A : Type 0} → Run A → Run A
truncated (ok a b) = ok a b
truncated (err e b) = err (no_clean_end e) b

unfoldable pub read_bytes : ℕ → M (List ℕ)
unfolding read_raw
read_bytes n b = truncated (read_raw n b)

unfoldable pub skip_bytes : ℕ → M Bool
skip_bytes zero = pure true
skip_bytes (suc n) = do _ ← read_bits 8; skip_bytes n

unfoldable pub same_bytes : List ℕ → List ℕ → Bool
same_bytes [] [] = true
same_bytes [] (y ∷ ys) = false
same_bytes (x ∷ xs) [] = false
same_bytes (x ∷ xs) (y ∷ ys) = (x == y) && same_bytes xs ys

-- "fLaC"
unfoldable pub check_magic : List ℕ → M Bool
unfolding same_bytes
check_magic first4 =
    if same_bytes first4 (0x66 ∷ 0x4c ∷ 0x61 ∷ 0x43 ∷ []) then pure true else fail unsupported

-- The size of an ID3v2 tag after its 10 bytes of header, the optional footer included.
unfoldable pub id3_size : List ℕ → ℕ
id3_size rest =
    let at = λ (i : ℕ). bit_and (get_or rest i 0) 0x7f in
    let size = bit_or (bit_or (bit_or (at 2 * 2 ^ 21) (at 3 * 2 ^ 14)) (at 4 * 2 ^ 7)) (at 5) in
    if bit_and (get_or rest 1 0) 0x10 == 0 then size else size + 10

unfoldable pub skip_id3_and_magic : M Bool
unfolding read_bytes skip_bytes same_bytes check_magic id3_size
skip_id3_and_magic = do
  first4 ← read_bytes 4
  if same_bytes (take 3 first4) (0x49 ∷ 0x44 ∷ 0x33 ∷ [])
      then (do
        rest ← read_bytes 6
        _ ← skip_bytes (id3_size rest)
        again ← read_bytes 4
        check_magic again)
      else check_magic first4

pub record BlockHeader : Type 0 where
  pub last : Bool
  pub btype : ℕ
  pub size : ℕ

unfoldable pub read_block_header : M BlockHeader
read_block_header = do
  lb ← read_bits 1
  btype ← read_bits 7
  size ← read_bits 24
  pure (record { last = lb == 1; btype = btype; size = size })

-- STREAMINFO, which must come first and have its fixed length.
unfoldable pub read_info_block : Bool → StreamMeta → ℕ → M StreamMeta
unfolding read_stream_info
read_info_block first sm size =
    if not first
    then fail missing_stream_info
    else if not (size == 34)
    then fail unsupported
    else (read_stream_info >>= λ f. pure (record sm {
      info = f.info;
      min_block = f.min_block;
      max_block = f.max_block;
      max_frame = f.max_frame;
    }))

unfoldable pub with_points : StreamMeta → Option (List SeekPoint) → M StreamMeta
with_points sm none = fail unsupported
with_points sm (some pts) = pure (record sm { seek_points = pts })

-- A malformed comment block is skipped.
unfoldable pub with_comments :
    StreamMeta → Option ((List ℕ × List (List ℕ)) × List ℕ) → M StreamMeta
with_comments sm none = pure sm
with_comments sm (some (tags, r)) = pure (record sm { vendor = tags.0; comments = tags.1 })

-- The body of a block, by its type.
unfoldable pub read_block : Bool → StreamMeta → BlockHeader → M StreamMeta
unfolding read_bytes skip_bytes parse_seek_table parse_vorbis_comment read_info_block
read_block first sm h =
    if h.btype == 127
    then fail unsupported
    else if first && not (h.btype == 0)
    then fail missing_stream_info
    else if h.btype == 0
    then read_info_block first sm h.size
    else if h.btype == 3
    then (read_bytes h.size >>= λ body. with_points sm (parse_seek_table body))
    else if h.btype == 4
    then (read_bytes h.size >>= λ body. with_comments sm (parse_vorbis_comment body))
    else (skip_bytes h.size >>= λ _. pure sm)

-- The loop over the blocks, with `k` rounds at most; `have` says that STREAMINFO was read.
unfoldable pub read_blocks : ℕ → Bool → Bool → StreamMeta → M StreamMeta
unfolding read_block_header read_block
read_blocks zero first have sm = fail stuck
read_blocks (suc k) first have sm = do
  h ← read_block_header
  sm' ← read_block first sm h
  let found = have || (h.btype == 0)
  let rest = read_blocks k false found sm'
  if h.last then (if found then pure sm' else fail missing_stream_info) else rest

-- Each round takes 32 bits at least, so that the bits of the register, the buffer and the source
-- bound the rounds.
unfoldable pub read_metadata : M StreamMeta
unfolding skip_id3_and_magic read_blocks
read_metadata b =
    let rounds = b.nbits + (length b.buf + Source.size b.src) * 8 + 1 in
    truncated ((skip_id3_and_magic >>= λ _. read_blocks rounds true false empty_meta) b)

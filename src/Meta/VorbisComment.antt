-- ===== src/Meta/VorbisComment.antt =====
-- internal/meta/vorbiscomment.go: the tags of a stream. A string is the list of its bytes.
pub mod RoundTrip
use go_flac.Prelude.{
  ℕ, zero, suc, ◌+◌, ◌*◌, ◌/◌, ◌%◌, ◌^◌, List, [], ◌∷◌, ◌++◌, Option, none, some, ltb,
  if◌then◌else◌, take, drop, length,
}
use go_flac.Prelude.Word.{byte}

-- `k` bytes of a number, little-endian.
unfoldable pub le_bytes : ℕ → ℕ → List ℕ
le_bytes zero v = []
le_bytes (suc k) v = byte v ∷ le_bytes k (v / 256)

unfoldable pub of_le_bytes : List ℕ → ℕ
of_le_bytes [] = 0
of_le_bytes (b ∷ bs) = byte b + 256 * of_le_bytes bs

unfoldable pub encode_comments : List (List ℕ) → List ℕ
unfolding le_bytes
encode_comments [] = []
encode_comments (c ∷ cs) = le_bytes 4 (length c) ++ c ++ encode_comments cs

unfoldable pub encode_vorbis_comment : List ℕ → List (List ℕ) → List ℕ
unfolding encode_comments le_bytes
encode_vorbis_comment vendor comments =
    le_bytes 4 (length vendor) ++ vendor ++ le_bytes 4 (length comments) ++ encode_comments comments

-- A parser of the body's rest: `none` is `ErrUnsupported`.
abbrev pub Parser : Type 0 → Type 0
Parser A = List ℕ → Option (A × List ℕ)

abbrev pub parsed_then : {A B : Type 0} → Option (A × List ℕ) → (A → Parser B) → Option (B × List ℕ)
parsed_then none f = none
parsed_then (some (a, r)) f = f a r

infixl 20 ◌>>=◌
abbrev pub ◌>>=◌ : {A B : Type 0} → Parser A → (A → Parser B) → Parser B
(p >>= f) r = parsed_then (p r) f

abbrev pub ret : {A : Type 0} → A → Parser A
ret a r = some (a, r)

unfoldable pub take_u32 : Parser ℕ
unfolding of_le_bytes
take_u32 r = if ltb (length r) 4 then none else some (of_le_bytes (take 4 r), drop 4 r)

unfoldable pub take_bytes : ℕ → Parser (List ℕ)
take_bytes n r = if ltb (length r) n then none else some (take n r, drop n r)

-- The loop over the comments.
unfoldable pub parse_comments : ℕ → Parser (List (List ℕ))
unfolding take_u32 take_bytes
parse_comments zero = ret []
parse_comments (suc n) = do
  clen ← take_u32
  c ← take_bytes clen
  cs ← parse_comments n
  ret (c ∷ cs)

-- The bound on the count that the bytes left give.
unfoldable pub parse_counted : ℕ → Parser (List (List ℕ))
unfolding parse_comments
parse_counted count r = if ltb (length r / 4) count then none else parse_comments count r

-- The vendor and the comments; what follows them is ignored.
unfoldable pub parse_vorbis_comment : List ℕ → Option ((List ℕ × List (List ℕ)) × List ℕ)
unfolding parse_counted
parse_vorbis_comment = do
  vlen ← take_u32
  vendor ← take_bytes vlen
  count ← take_u32
  comments ← parse_counted count
  ret (vendor, comments)

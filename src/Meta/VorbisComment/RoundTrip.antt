-- ===== src/Meta/VorbisComment/RoundTrip.antt =====
-- Tags read back.
use go_flac.Prelude.{
  ℕ, suc, ◌*◌, ◌/◌, ◌^◌, ◌≤◌, ◌<◌, ◌≡◌, refl, ap, ◌∙◌, List, [], ◌∷◌, ◌++◌, append_assoc,
  append-nil, Option, some, false, ltb, ge→ltb, All, length, length-append, take-append,
  drop-append, arith,
}
use go_flac.Meta.VorbisComment.{
  le_bytes, of_le_bytes, encode_comments, encode_vorbis_comment, Parser, parsed_then, ◌>>=◌, ret,
  take_u32, take_bytes, parse_comments, parse_counted, parse_vorbis_comment,
}

of_le_bytes_four : (n : ℕ) → n < 2 ^ 32 → of_le_bytes (le_bytes 4 n) ≡ n
unfolding of_le_bytes le_bytes
of_le_bytes_four n lt = omega arith

take_u32-le_bytes : (n : ℕ) (r : List ℕ) → n < 2 ^ 32 → take_u32 (le_bytes 4 n ++ r) ≡ some (n, r)
unfolding take_u32 le_bytes
take_u32-le_bytes n r lt =
    let long : ltb (length (le_bytes 4 n ++ r)) 4 ≡ false = ground arith in
    rw long (ap (λ (k : ℕ). some (k, r)) (of_le_bytes_four n lt))

take_bytes-append : (s r : List ℕ) → take_bytes (length s) (s ++ r) ≡ some (s, r)
unfolding take_bytes
take_bytes-append s r =
    let long : ltb (length (s ++ r)) (length s) ≡ false =
      ge→ltb (length (s ++ r)) (length s) (omega (arith, length-append s r)) in
    rw (long, take-append s r, drop-append s r) refl

bind_some :
    {A B : Type 0} {o : Option (A × List ℕ)} {a : A} {r : List ℕ} (f : A → Parser B)
    → o ≡ some (a, r)
    → parsed_then o f ≡ f a r
bind_some f e = ap (λ t. parsed_then t f) e

-- A string whose length fits 32 bits.
abbrev pub IsShort : List ℕ → Type 0
IsShort s = length s < 2 ^ 32

parse_comments-encode_comments :
    (cs : List (List ℕ)) (r : List ℕ)
    → All IsShort cs
    → parse_comments (length cs) (encode_comments cs ++ r) ≡ some (cs, r)
unfolding parse_comments encode_comments
parse_comments-encode_comments [] r h = refl
parse_comments-encode_comments (c ∷ cs) r (hc, h) =
    let rest : List ℕ = encode_comments cs ++ r in
    let shape : (le_bytes 4 (length c) ++ c ++ encode_comments cs) ++ r
        ≡ le_bytes 4 (length c) ++ (c ++ rest) =
      simp append_assoc in
    let third : List (List ℕ) → Parser (List (List ℕ)) = λ t. ret (c ∷ t) in
    let second : List ℕ → Parser (List (List ℕ)) =
      λ s. parse_comments (length cs) >>= λ t. ret (s ∷ t) in
    let first : ℕ → Parser (List (List ℕ)) = λ k. take_bytes k >>= second in
    ap (parse_comments (suc (length cs))) shape
    ∙ bind_some first (take_u32-le_bytes (length c) (c ++ rest) hc)
    ∙ bind_some second (take_bytes-append c rest)
    ∙ bind_some third (parse_comments-encode_comments cs r h)

-- Each comment takes its length field at least.
length-encode_comments : (cs : List (List ℕ)) → length cs * 4 ≤ length (encode_comments cs)
unfolding encode_comments le_bytes
length-encode_comments [] = omega arith
length-encode_comments (c ∷ cs) =
    omega (arith, length-append c (encode_comments cs), length-encode_comments cs)

-- `parseVorbisComment` gives back the vendor and the comments that `EncodeVorbisComment` was given,
-- and leaves nothing of the body, if the lengths and the count fit their 32-bit fields.
pub parse_vorbis_comment-encode_vorbis_comment :
    (vendor : List ℕ) (comments : List (List ℕ))
    → length vendor < 2 ^ 32
    → length comments < 2 ^ 32
    → All IsShort comments
    → parse_vorbis_comment (encode_vorbis_comment vendor comments) ≡ some ((vendor, comments), [])
unfolding parse_vorbis_comment encode_vorbis_comment parse_counted
parse_vorbis_comment-encode_vorbis_comment vendor comments hv hc h =
    let body : List ℕ = encode_comments comments in
    let counted : List ℕ = le_bytes 4 (length comments) ++ body in
    let enough : ltb (length body / 4) (length comments) ≡ false =
      ge→ltb (length body / 4) (length comments) (omega (arith, length-encode_comments comments)) in
    let whole : body ++ [] ≡ body = append-nil body in
    let parsed : parse_comments (length comments) body ≡ some (comments, []) =
      rw whole at (parse_comments-encode_comments comments [] h) in
    let counts : parse_counted (length comments) body ≡ some (comments, []) = rw enough parsed in
    let fourth : List (List ℕ) → Parser (List ℕ × List (List ℕ)) = λ cs. ret (vendor, cs) in
    let third : ℕ → Parser (List ℕ × List (List ℕ)) = λ n. parse_counted n >>= fourth in
    let second : List ℕ → Parser (List ℕ × List (List ℕ)) =
      λ v. take_u32 >>= λ n. parse_counted n >>= λ cs. ret (v, cs) in
    let first : ℕ → Parser (List ℕ × List (List ℕ)) = λ n. take_bytes n >>= second in
    let shape : le_bytes 4 (length vendor) ++ vendor ++ le_bytes 4 (length comments) ++ body
        ≡ le_bytes 4 (length vendor) ++ (vendor ++ counted) =
      simp append_assoc in
    ap parse_vorbis_comment shape
    ∙ bind_some first (take_u32-le_bytes (length vendor) (vendor ++ counted) hv)
    ∙ bind_some second (take_bytes-append vendor counted)
    ∙ bind_some third (take_u32-le_bytes (length comments) body hc)
    ∙ bind_some fourth counts

-- ===== src/Crc.antt =====
-- internal/crc/crc.go: the table-driven CRC-8 and CRC-16. `Checksum16` calls an external package.
use go_flac.Prelude.{
  ℕ, zero, suc, ◌*◌, ◌%◌, ◌^◌, List, [], ◌∷◌, ◌==◌, if◌then◌else◌, bit_and, bit_xor,
}
use go_flac.Prelude.Word.{byte, shr}

unfoldable pub step8 : ℕ → ℕ
step8 c = if bit_and c 0x80 == 0 then c * 2 % 256 else bit_xor (c * 2 % 256) 0x07

unfoldable pub step16 : ℕ → ℕ
step16 c = if bit_and c 0x8000 == 0 then c * 2 % 2 ^ 16 else bit_xor (c * 2 % 2 ^ 16) 0x8005

abbrev pub steps : ℕ → (ℕ → ℕ) → ℕ → ℕ
steps zero f c = c
steps (suc n) f c = steps n f (f c)

-- `table8[i]` and `table16[i]`, as `init` fills them.
unfoldable pub table8 : ℕ → ℕ
unfolding step8
table8 i = steps 8 step8 i

unfoldable pub table16 : ℕ → ℕ
unfolding step16
table16 i = steps 8 step16 (i * 256 % 2 ^ 16)

unfoldable pub update8 : ℕ → ℕ → ℕ
unfolding table8
update8 crc b = table8 (bit_xor crc b)

unfoldable pub update16 : ℕ → ℕ → ℕ
unfolding table16
update16 crc b = bit_xor (crc * 256 % 2 ^ 16) (table16 (bit_xor (byte (shr crc 8)) b))

unfoldable pub checksum_loop : ℕ → List ℕ → ℕ
unfolding update8
checksum_loop c [] = c
checksum_loop c (b ∷ p) = checksum_loop (update8 c b) p

unfoldable pub checksum8 : List ℕ → ℕ
unfolding checksum_loop
checksum8 p = checksum_loop 0 p

-- ===== src/Tests/Bits.antt =====
-- internal/bitio at concrete inputs.
use go_flac.Prelude.{◌*◌, ◌<◌, ◌≡◌, refl, [], ◌∷◌, ◌++◌, arith, length, replicate}
use go_flac.Errors.{eof}
use go_flac.Bitstream.{to_bits, of_bits, bytes_bits, unary_bits, length-to_bits}
use go_flac.Bitio.Source.{Source, chunk, finish}
use go_flac.Bitio.Writer.{Writer, new_writer, write_bits, write_unary, align_byte, bytes}
use go_flac.Bitio.Writer.Contents
use go_flac.Bitio.Writer.Contents.{contents, Writes, write_bits-Writes}
use go_flac.Bitio.Writer.Flush.{bytes-contents, align_byte-Writes, padding, write_unary-Writes}
use go_flac.Bitio.Reader.{Reader, ok, err, new_reader}
use go_flac.Bitio.Reader.Read.{read_bits, read_unary, fill}
use go_flac.Bitio.Reader.Pending.{pending, held, coming, final_error, Takes}
use go_flac.Bitio.Reader.Refill.{fill-Takes, Filled}
use go_flac.Bitio.Reader.Serve.{read_bits_enough, read_bits_short, short_error}
use go_flac.Bitio.Reader.Unary.{read_unary_lem}
use go_flac.Bitio.RoundTrip.{new_writer-IsValid, new_reader-IsValid, source_of}

abbrev started : Writer
started = write_bits 5 3 new_writer

started-IsValid : Contents.IsValid started
started-IsValid = (write_bits-Writes new_writer new_writer-IsValid 5 3 (omega arith)).valid

write_bits-Writes_example : Writes started (to_bits 57 0x1ff) (write_bits 0x1ff 57 started)
write_bits-Writes_example = write_bits-Writes started started-IsValid 0x1ff 57 (omega arith)

write_unary-Writes_example : Writes started (unary_bits 70) (write_unary 70 started)
write_unary-Writes_example = write_unary-Writes started started-IsValid 70

align_byte-Writes_example :
    Writes started (replicate (padding (length (contents started))) 0) (align_byte started)
    × ((align_byte started).nbit ≡ 0)
align_byte-Writes_example = align_byte-Writes started started-IsValid

-- Two bytes in a row, ready to be taken.
abbrev two_bytes : Writer
two_bytes = write_bits 0xfff8 16 new_writer

two_bytes-IsValid : Contents.IsValid two_bytes
two_bytes-IsValid = (write_bits-Writes new_writer new_writer-IsValid 0xfff8 16 (omega arith)).valid

length-two_bytes : length (contents two_bytes) ≡ 2 * 8
unfolding contents write_bits new_writer bytes_bits to_bits
length-two_bytes = refl

bytes-contents_example :
    (bytes_bits (bytes two_bytes).0 ≡ contents two_bytes) × Writes two_bytes [] (bytes two_bytes).1
bytes-contents_example = bytes-contents two_bytes 2 two_bytes-IsValid length-two_bytes

-- A source that hands out two bytes in one call, and a third with the end of file.
abbrev slow_source : Source
slow_source = chunk [] (chunk (0xff ∷ 0xf8 ∷ []) (finish (0x29 ∷ []) eof))

abbrev slow_reader : Reader
slow_reader = new_reader slow_source

sync_bits : pending slow_reader ≡ to_bits 14 0x3ffe ++ to_bits 10 0x029
unfolding pending held coming new_reader to_bits bytes_bits go_flac.Bitio.Source.delivered
sync_bits = refl

read_bits_enough_example :
    (b : Reader) × (read_bits 14 slow_reader ≡ ok (of_bits (to_bits 14 0x3ffe)) b)
    × Takes slow_reader (to_bits 14 0x3ffe) b
    × (pending b ≡ to_bits 10 0x029)
read_bits_enough_example =
    read_bits_enough 14 slow_reader (to_bits 14 0x3ffe) (to_bits 10 0x029) (omega arith)
      (new_reader-IsValid slow_source) sync_bits (length-to_bits 14 0x3ffe)

-- One byte, and the end of the file.
abbrev short_reader : Reader
short_reader = new_reader (source_of (0x08 ∷ []))

one_byte_left : length (pending short_reader) < 9
unfolding pending held coming new_reader to_bits bytes_bits go_flac.Bitio.Source.delivered
one_byte_left = omega arith

read_bits_short_example :
    (b : Reader) × (read_bits 9 short_reader
      ≡ err (short_error (pending short_reader) (final_error short_reader)) b)
read_bits_short_example =
    read_bits_short 9 short_reader (omega arith) (new_reader-IsValid (source_of (0x08 ∷ [])))
      one_byte_left

four_zeros : pending short_reader ≡ unary_bits 4 ++ to_bits 3 0
unfolding pending held coming new_reader to_bits bytes_bits unary_bits
    go_flac.Bitio.Source.delivered
four_zeros = refl

read_unary_lem_example :
    (b : Reader) × (read_unary short_reader ≡ ok 4 b)
    × Takes short_reader (unary_bits 4) b
    × (pending b ≡ to_bits 3 0)
read_unary_lem_example =
    read_unary_lem 4 short_reader (to_bits 3 0) (new_reader-IsValid (source_of (0x08 ∷ [])))
      four_zeros

fill-Takes_example : Takes slow_reader [] (fill slow_reader) × Filled (fill slow_reader)
fill-Takes_example = fill-Takes (new_reader-IsValid slow_source)

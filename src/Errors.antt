-- ===== src/Errors.antt =====
-- The errors of flac.go and of Go's `io` package that the code tells apart; `errors.Is` looks
-- through the wrapping, so an error is its sentinel here.
use go_flac.Prelude.{ℕ}

-- `io_error` is an error of the source that is none of the others. `stuck` is no Go value: a
-- bounded recursion of the model ran out, which the theorems exclude.
pub data Error : Type 0 where
  eof unexpected_eof no_progress : Error
  io_error : ℕ → Error
  unsupported missing_stream_info crc_mismatch sample_out_of_range : Error
  residual_range subframe_out_of_range : Error
  stuck : Error

-- `if errors.Is(err, io.EOF) { err = io.ErrUnexpectedEOF }`
abbrev pub no_clean_end : Error → Error
no_clean_end eof = unexpected_eof
no_clean_end e = e

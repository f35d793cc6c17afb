-- ===== src/Bitio/Source.antt =====
-- An `io.Reader`, as the sequence of what its calls return. `chunk` is a call that returns bytes
-- and no error, an empty one the call that returns (0, nil); `finish` is the call that returns
-- its last bytes together with an error. Bytes that do not fit the caller's slice stay for the
-- next call.
pub mod Calls
use go_flac.Prelude.{
  ℕ, zero, suc, ◌+◌, ◌-◌, ◌≤◌, List, [], ◌∷◌, ◌++◌, Option, none, some, length, take, drop, leb,
  if◌then◌else◌,
}
use go_flac.Errors.{Error, no_progress}

pub data Source : Type 0 where
  chunk : List ℕ → Source → Source
  finish : List ℕ → Error → Source

-- One call of `Read` on a slice of `room` bytes.
unfoldable pub read : ℕ → Source → List ℕ × Option Error × Source
read room (chunk bs s) =
    if leb (length bs) room then (bs, none, s) else (take room bs, none, chunk (drop room bs) s)
read room (finish bs e) =
    if leb (length bs) room
    then (bs, some e, finish [] e)
    else (take room bs, none, finish (drop room bs) e)

-- All the bytes that a reader gets from here on, where `k + 1` more empty calls in a row make it
-- give up. It gives up after 100.
unfoldable pub delivered : ℕ → Source → List ℕ
delivered k (finish bs e) = bs
delivered k (chunk [] s) = elim k [ zero ↦ [] | suc k' ↦ delivered k' s ]
delivered k (chunk (b ∷ bs) s) = (b ∷ bs) ++ delivered 99 s

-- The error that the bytes end with.
unfoldable pub ending : ℕ → Source → Error
ending k (finish bs e) = e
ending k (chunk [] s) = elim k [ zero ↦ no_progress | suc k' ↦ ending k' s ]
ending k (chunk (b ∷ bs) s) = ending 99 s

-- The number of bytes of a source.
unfoldable pub size : Source → ℕ
size (chunk bs s) = length bs + size s
size (finish bs e) = length bs

-- ===== src/Prelude/Word.antt =====
-- Go's `uint64` operations on native numbers. Shift counts of 64 and more give 0, as in Go.
use Prim.Native.Nat.{ℕ, ◌+◌, ◌-◌, ◌*◌, ◌/◌, ◌%◌, ◌^◌}

abbrev pub shl64 : ℕ → ℕ → ℕ
shl64 v k = v * 2 ^ k % 2 ^ 64

abbrev pub shr : ℕ → ℕ → ℕ
shr v k = v / 2 ^ k

-- `a - b` on a `uint64`; 2 ^ 64 is added first since `-` stops at 0.
abbrev pub sub64 : ℕ → ℕ → ℕ
sub64 a b = (a + 2 ^ 64 - b) % 2 ^ 64

abbrev pub byte : ℕ → ℕ
byte v = v % 256

-- ===== src/Signed.antt =====
-- Go's signed integers of `w` bits, for the code that is generic in the sample type or written once
-- for `int32` and once for `int64`: a number is its two's complement pattern, below 2 ^ w, and
-- arithmetic wraps.
pub mod Shift
use go_flac.Prelude.{ℕ, ◌+◌, ◌-◌, ◌*◌, ◌/◌, ◌%◌, ◌^◌, ◌≤◌, ◌<◌, ◌⊎◌, Bool, ltb, if◌then◌else◌}

abbrev pub add_w : ℕ → ℕ → ℕ → ℕ
add_w w a b = (a + b) % 2 ^ w

-- 2 ^ w is added first since `-` stops at 0.
abbrev pub sub_w : ℕ → ℕ → ℕ → ℕ
sub_w w a b = (a + 2 ^ w - b) % 2 ^ w

abbrev pub shl_w : ℕ → ℕ → ℕ → ℕ
shl_w w v k = v * 2 ^ k % 2 ^ w

-- `v >> k`, which rounds down.
unfoldable pub sar : ℕ → ℕ → ℕ → ℕ
sar w v k = if ltb v (2 ^ (w - 1)) then v / 2 ^ k else 2 ^ w - 1 - (2 ^ w - 1 - v) / 2 ^ k

-- `a < b`: adding half the range turns the signed order into that of the patterns.
abbrev pub less : ℕ → ℕ → ℕ → Bool
less w a b = ltb ((a + 2 ^ (w - 1)) % 2 ^ w) ((b + 2 ^ (w - 1)) % 2 ^ w)

-- `n` bits hold `x`, a pattern of `w` bits, in two's complement.
abbrev pub Fits : ℕ → ℕ → ℕ → Type 0
Fits w n x = (x < 2 ^ w) × ((x < 2 ^ (n - 1)) ⊎ (2 ^ w ≤ x + 2 ^ (n - 1)))

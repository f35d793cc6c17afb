-- ===== src/I32/Range.antt =====
-- internal/i32: `MinMax` (minmax.go) and `minMaxGo` (i32_go.go), on `int32` patterns.
use go_flac.Prelude.{ℕ, List, [], ◌∷◌, if◌then◌else◌}
use go_flac.Signed.{less}

abbrev pub Bounds : Type 0
Bounds = ℕ × ℕ

unfoldable pub min_max_loop : ℕ → ℕ → List ℕ → Bounds
min_max_loop lo hi [] = (lo, hi)
min_max_loop lo hi (r ∷ rs) =
    min_max_loop (if less 32 r lo then r else lo) (if less 32 hi r then r else hi) rs

-- An empty slice gives zeros.
unfoldable pub min_max : List ℕ → Bounds
unfolding min_max_loop
min_max [] = (0, 0)
min_max (r ∷ rs) = min_max_loop r r rs

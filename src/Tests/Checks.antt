-- ===== src/Tests/Checks.antt =====
-- internal/crc and the partition orders at concrete inputs.
use go_flac.Prelude.{◌+◌, ◌/◌, ◌%◌, ◌^◌, ◌≤◌, ◌≡◌, ◌⊎◌, refl, [], ◌∷◌, arith}
use go_flac.Crc.{checksum8, checksum_loop, update8, table8, step8}
use go_flac.Rice.Choice.{feasible_pmax, feasible_pmax_lem, IsInfeasible}

-- The check value of CRC-8, of "123456789".
checksum8-digits :
    checksum8 (0x31 ∷ 0x32 ∷ 0x33 ∷ 0x34 ∷ 0x35 ∷ 0x36 ∷ 0x37 ∷ 0x38 ∷ 0x39 ∷ []) ≡ 0xf4
unfolding checksum8 checksum_loop update8 table8 step8
checksum8-digits = refl

feasible_pmax_lem_example :
    (feasible_pmax 4096 4 8 ≤ 8)
    × (4096 % 2 ^ feasible_pmax 4096 4 8 ≡ 0)
    × (4 ≤ 4096 / 2 ^ feasible_pmax 4096 4 8)
    × ((feasible_pmax 4096 4 8 ≡ 8) ⊎ IsInfeasible 4096 4 (feasible_pmax 4096 4 8 + 1))
feasible_pmax_lem_example = feasible_pmax_lem 4096 4 8 (omega arith)

-- ===== src/Utils/Tests.antt =====
-- The arithmetic of src/utils.c at concrete inputs.
use libevlite.Base.{ℕ, ◌*◌, ◌^◌, ◌≤◌, ◌<◌, ◌≡◌, ◌⊎◌, arith}
use libevlite.Utils.Defs.{nextpow2}
use libevlite.Utils.Power.{nextpow2_lem}

nextpow2_lem_example :
    (n : ℕ) × (n ≤ 31) × (nextpow2 1000 ≡ 2 ^ n) × (1000 ≤ 2 ^ n) × ((n ≡ 0) ⊎ (2 ^ n < 2 * 1000))
nextpow2_lem_example = nextpow2_lem 1000 (omega arith) (omega arith)

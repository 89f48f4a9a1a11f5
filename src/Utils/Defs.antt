-- ===== src/Utils/Defs.antt =====
-- getpower() and nextpow2() of src/utils.c, on uint32_t.
use Prim.Native.Nat.{bit_or}
use libevlite.Base.{ℕ, zero, suc, ◌/◌, ◌^◌, ◌==◌, if◌then◌else◌, Option, none, some}
use libevlite.Base.Words.{add32, sub32}

-- `for ( ; size >>= 1; ) ++n;`, on fuel.
unfoldable pub getpower_loop : ℕ → ℕ → ℕ → Option ℕ
getpower_loop zero size n = none
getpower_loop (suc fuel) size n =
    let rest = getpower_loop fuel (size / 2) (add32 n 1) in if size / 2 == 0 then some n else rest

-- A word is 0 after 32 rounds.
unfoldable pub getpower : ℕ → Option ℕ
unfolding getpower_loop
getpower size = getpower_loop 33 size 0

-- `size |= size >> k`
abbrev pub smear : ℕ → ℕ → ℕ
smear k size = bit_or size (size / 2 ^ k)

unfoldable pub nextpow2 : ℕ → ℕ
nextpow2 size = add32 (smear 16 (smear 8 (smear 4 (smear 2 (smear 1 (sub32 size 1)))))) 1

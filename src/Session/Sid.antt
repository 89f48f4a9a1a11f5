-- ===== src/Session/Sid.antt =====
-- The macros of src/session.h on session ids (sid_t, 64 bits):
--   | 16 bits reserved | 8 bits index + 1 | 16 bits version | 24 bits sequence |
use Prim.Native.Nat.{bit_and, bit_or}
use libevlite.Base.{ℕ, ◌+◌, ◌-◌, ◌*◌, ◌/◌, ◌%◌, ◌^◌}
use libevlite.Base.Int.{ℤ, sub_ℕ}
use libevlite.Base.Words.{u64_mod}

abbrev pub sid_res_bits : ℕ
sid_res_bits = 16

abbrev pub sid_index_bits : ℕ
sid_index_bits = 8

abbrev pub sid_version_bits : ℕ
sid_version_bits = 16

abbrev pub sid_seq_bits : ℕ
sid_seq_bits = 24

abbrev pub invalid_slot_index : ℕ
invalid_slot_index = 0xFFFFFFFF

abbrev pub max_slot_capacity : ℕ
max_slot_capacity = 2 ^ sid_seq_bits

-- `( 1ULL << bits ) - 1`
abbrev pub mask : ℕ → ℕ
mask bits = 2 ^ bits - 1

abbrev pub shl64 : ℕ → ℕ → ℕ
shl64 x k = (x * 2 ^ k) % u64_mod

unfoldable pub sid_seq : ℕ → ℕ
sid_seq sid = bit_and sid (mask sid_seq_bits) % 2 ^ 32

unfoldable pub sid_version : ℕ → ℕ
sid_version sid = bit_and (sid / 2 ^ sid_seq_bits) (mask sid_version_bits) % 2 ^ 16

-- The cast to uint8_t binds tighter than the `- 1`: the value is an int, and -1 for a field of 0.
unfoldable pub sid_index : ℕ → ℤ
sid_index sid =
    sub_ℕ (bit_and (sid / 2 ^ (sid_seq_bits + sid_version_bits)) (mask sid_index_bits) % 2 ^ 8) 1

unfoldable pub sid_res : ℕ → ℕ
sid_res sid =
    bit_and (sid / 2 ^ (sid_seq_bits + sid_version_bits + sid_index_bits)) (mask sid_res_bits)
    % 2 ^ 16

unfoldable pub make_sid : ℕ → ℕ → ℕ → ℕ
make_sid index ver seq =
    bit_or
      (bit_or (shl64 (bit_and (index + 1) (mask sid_index_bits)) (sid_seq_bits + sid_version_bits))
        (shl64 (bit_and ver (mask sid_version_bits)) sid_seq_bits))
      (bit_and seq (mask sid_seq_bits))

unfoldable pub bind_logic_res : ℕ → ℕ → ℕ
bind_logic_res sid res =
    bit_or sid
      (shl64 (bit_and res (mask sid_res_bits)) (sid_seq_bits + sid_version_bits + sid_index_bits))

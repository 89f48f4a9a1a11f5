-- ===== src/Session/SidLaws.antt =====
-- The fields of a session id (src/session.h).
use Prim.Native.Nat.{bit_and}
use libevlite.Base.{ℕ, ◌+◌, ◌*◌, ◌/◌, ◌%◌, ◌^◌, ◌<◌, ◌≡◌, sym, ap, ◌∙◌, arith}
use libevlite.Base.Int.{pos, sub_ℕ}
use libevlite.Base.Bits.{bit_and-mask, bit_or_high_low, bit_or_low_high}
use libevlite.Session.Sid.{
  shl64, sid_seq, sid_version, sid_index, sid_res, make_sid, bind_logic_res, max_slot_capacity,
}

-- The id as a number.
pub make_sid-sum :
    (index ver seq : ℕ)
    → index < 255
    → ver < 2 ^ 16
    → seq < max_slot_capacity
    → make_sid index ver seq ≡ ((index + 1) * 2 ^ 16 + ver) * 2 ^ 24 + seq
unfolding make_sid
make_sid-sum index ver seq hi hv hs =
    let a : bit_and (index + 1) 255 ≡ index + 1 = omega (arith, bit_and-mask (index + 1) 8) in
    let b : bit_and ver 65535 ≡ ver = omega (arith, bit_and-mask ver 16) in
    let c : bit_and seq 16777215 ≡ seq = omega (arith, bit_and-mask seq 24) in
    let high : shl64 (index + 1) 40 ≡ (index + 1) * 2 ^ 40 = omega arith in
    let middle : shl64 ver 24 ≡ ver * 2 ^ 24 = omega arith in
    let both : (index + 1) * 2 ^ 40 + ver * 2 ^ 24 ≡ ((index + 1) * 2 ^ 16 + ver) * 2 ^ 24 =
      omega arith in
    rw (a, b, c, high, middle, bit_or_high_low 40 (index + 1) (ver * 2 ^ 24) (omega arith), both)
      (bit_or_high_low 24 ((index + 1) * 2 ^ 16 + ver) seq hs)

bind_logic_res-sum :
    (sid res : ℕ) → sid < 2 ^ 48 → res < 2 ^ 16 → bind_logic_res sid res ≡ res * 2 ^ 48 + sid
unfolding bind_logic_res
bind_logic_res-sum sid res hs hr =
    let a : bit_and res 65535 ≡ res = omega (arith, bit_and-mask res 16) in
    let high : shl64 res 48 ≡ res * 2 ^ 48 = omega arith in
    rw (a, high) (bit_or_low_high 48 res sid hs)

-- The parts of any id below 2 ^ 64, as quotients and remainders.
pub fields :
    (sid : ℕ)
    → (sid_seq sid ≡ sid % 2 ^ 24)
      × (sid_version sid ≡ sid / 2 ^ 24 % 2 ^ 16)
      × (sid_index sid ≡ sub_ℕ (sid / 2 ^ 40 % 2 ^ 8) 1)
      × (sid_res sid ≡ sid / 2 ^ 48 % 2 ^ 16)
unfolding sid_seq sid_version sid_index sid_res
fields sid = (
  rw (bit_and-mask sid 24) (omega arith),
  rw (bit_and-mask (sid / 2 ^ 24) 16) (omega arith),
  rw (bit_and-mask (sid / 2 ^ 40) 8) (ap (λ n. sub_ℕ n 1) (omega arith)),
  rw (bit_and-mask (sid / 2 ^ 48) 16) (omega arith),
)

-- For a thread index below 255, a version of 16 bits and a sequence number of 24 bits, MAKE_SID followed by the extraction macros gives the thread index, the version and the sequence
-- number back, with the reserved bits 0.
pub make_sid-fields :
    (index ver seq : ℕ)
    → index < 255
    → ver < 2 ^ 16
    → seq < max_slot_capacity
    → let sid = make_sid index ver seq in
      (sid_index sid ≡ pos index)
      × (sid_version sid ≡ ver)
      × (sid_seq sid ≡ seq)
      × (sid_res sid ≡ 0)
make_sid-fields index ver seq hi hv hs =
    let n = ((index + 1) * 2 ^ 16 + ver) * 2 ^ 24 + seq in
    let (low, middle, high, top) = fields n in
    let at : n / 2 ^ 40 % 2 ^ 8 ≡ index + 1 = omega arith in
    let less : sub_ℕ (index + 1) 1 ≡ pos index = ground arith in
    rw (make_sid-sum index ver seq hi hv hs)
      (high ∙ ap (λ k. sub_ℕ k 1) at ∙ less, omega arith, omega arith, omega arith)

-- BIND_LOGIC_RES writes 16 reserved bits into an id that has none set and leaves the thread index, the version and the
-- sequence number of the id as they were.
pub bind_logic_res-fields :
    (sid res : ℕ)
    → sid < 2 ^ 48
    → res < 2 ^ 16
    → let bound = bind_logic_res sid res in
      (sid_res bound ≡ res)
      × (sid_index bound ≡ sid_index sid)
      × (sid_version bound ≡ sid_version sid)
      × (sid_seq bound ≡ sid_seq sid)
bind_logic_res-fields sid res hs hr =
    let n = res * 2 ^ 48 + sid in
    let (low, middle, high, top) = fields n in
    let (low', middle', high', _) = fields sid in
    let at : n / 2 ^ 40 % 2 ^ 8 ≡ sid / 2 ^ 40 % 2 ^ 8 = omega arith in
    rw (bind_logic_res-sum sid res hs hr)
      (omega arith, high ∙ ap (λ k. sub_ℕ k 1) at ∙ sym high', omega arith, omega arith)

-- ===== src/Event/Offset.antt =====
-- How far a bucket of the timer wheel (src/timer.c) is ahead, before and after a step.
use native.Mathlib.Nat.{div-add-mod, mod-lt, mod-eq_of_lt}
use libevlite.Base.{
  ℕ, ◌+◌, ◌-◌, ◌/◌, ◌%◌, ◌^◌, ◌≤◌, ◌<◌, ◌≡◌, sym, ap, ◌∙◌, ◌==◌, if◌then◌else◌, arith, ℕ_discrete,
}
use libevlite.Base.Words.{u32_mod, add32, sub32}
use libevlite.Base.Bits.{pow_pos}
use libevlite.Event.Rounds.{mod_shift, mod_word, rounds_in_word, back_one}

-- The buckets from the one of `refer` up to `b`.
abbrev pub offset : ℕ → ℕ → ℕ → ℕ
offset k refer b = sub32 b refer % 2 ^ k

offset_plain : (k refer b : ℕ) → k ≤ 30 → offset k refer b ≡ (b + u32_mod - refer) % 2 ^ k
offset_plain k refer b h = mod_word (b + u32_mod - refer) k (omega arith)

pub offset_here : (k refer : ℕ) → k ≤ 30 → refer < u32_mod → offset k refer (refer % 2 ^ k) ≡ 0
offset_here k refer h small =
    let d = 2 ^ k in
    let (c, word) = rounds_in_word k (omega arith) in
    let whole = div-add-mod refer d in
    let low = mod-lt refer (pow_pos k) in
    offset_plain k refer (refer % d) h
    ∙ mod_shift d (refer % d + u32_mod - refer) 0 (refer / d) c (omega (arith, whole, word, small))
    ∙ mod-eq_of_lt (pow_pos k)

pub offset_elsewhere :
    (k refer b : ℕ)
    → k ≤ 30
    → refer < u32_mod
    → b < 2 ^ k
    → offset k refer b ≡ 0
    → b ≡ refer % 2 ^ k
offset_elsewhere k refer b h small lt zero_offset =
    let d = 2 ^ k in
    let x = b + u32_mod - refer in
    let (c, word) = rounds_in_word k (omega arith) in
    let whole = div-add-mod x d in
    let none : x % d ≡ 0 = sym (offset_plain k refer b h) ∙ zero_offset in
    sym (mod_shift d refer b (x / d) c (omega (arith, whole, none, word, small)) ∙ mod-eq_of_lt lt)

-- A step later each bucket is one nearer, and the one that was reached is the last.
pub offset_step :
    (k refer b : ℕ)
    → k ≤ 30
    → refer < u32_mod
    → b < 2 ^ k
    → offset k (add32 refer 1) b
      ≡ (if offset k refer b == 0 then 2 ^ k - 1 else offset k refer b - 1)
offset_step k refer b h small lt =
    let d = 2 ^ k in
    let x = b + u32_mod - refer in
    let (c, word) = rounds_in_word k (omega arith) in
    let whole = div-add-mod x d in
    let back = back_one d (x / d) (x % d) (mod-lt x (pow_pos k)) (omega (arith, whole, small)) in
    let before : (x - 1) % d ≡ (if offset k refer b == 0 then d - 1 else offset k refer b - 1) =
      ap (λ n. (n - 1) % d) (sym whole)
      ∙ back
      ∙ ap (λ r. if r == 0 then d - 1 else r - 1) (sym (offset_plain k refer b h)) in
    elim (ℕ_discrete (refer + 1) u32_mod) [
      | yes wraps ↦
          let next : add32 refer 1 ≡ 0 = omega arith in
          offset_plain k (add32 refer 1) b h
          ∙ mod_shift d (b + u32_mod - add32 refer 1) (x - 1) 0 c (omega (arith, word))
          ∙ before
      | no within ↦
          let next : add32 refer 1 ≡ refer + 1 = omega arith in
          offset_plain k (add32 refer 1) b h ∙ ap (λ n. n % d) (omega arith) ∙ before
    ]

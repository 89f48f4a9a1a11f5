-- ===== src/Event/Rounds.antt =====
-- Arithmetic of steps and rounds on the timer wheel (src/timer.c).
use native.Mathlib.Nat.{mul-add-mod_self_left, div-add-mod, mul-suc, mul_comm}
use libevlite.Base.{
  ℕ, zero, suc, ◌+◌, ◌-◌, ◌*◌, ◌/◌, ◌%◌, ◌^◌, ◌≤◌, ◌<◌, ◌≡◌, sym, ap, ◌∙◌, true, false, ◌&&◌, not,
  ◌==◌, if◌then◌else◌, arith, ℕ_discrete,
}
use libevlite.Base.Words.{u32_mod, add32, sub32}
use libevlite.Base.Bits.{mod_mod_pow, pow_pos, mod_unique}

-- Numbers that differ by multiples have one remainder.
pub mod_shift : (q x y a b : ℕ) → q * a + x ≡ q * b + y → x % q ≡ y % q
mod_shift q x y a b e =
    sym (mul-add-mod_self_left q a x) ∙ ap (λ n. n % q) e ∙ mul-add-mod_self_left q b y

pub mod_word : (x k : ℕ) → k ≤ 32 → x % u32_mod % 2 ^ k ≡ x % 2 ^ k
mod_word x k h = mod_mod_pow x k 32 h

-- A word is a whole number of rounds.
pub rounds_in_word : (k : ℕ) → k ≤ 32 → (c : ℕ) × (u32_mod ≡ 2 ^ k * c)
rounds_in_word k h =
    let none : u32_mod % 2 ^ k ≡ 0 = sym (mod_word u32_mod k h) ∙ mod_zero (2 ^ k) (pow_pos k) in
    (u32_mod / 2 ^ k, sym (omega (arith, div-add-mod u32_mod (2 ^ k), none)))
  where
    mod_zero : (d : ℕ) → 0 < d → 0 % d ≡ 0
    mod_zero d h = omega arith

-- From `refer`, the bucket that `q` steps on end at is q - 1 buckets ahead.
pub ahead :
    (k refer q : ℕ)
    → k ≤ 30
    → refer < u32_mod
    → 0 < q
    → sub32 (add32 (sub32 refer 1) q % 2 ^ k) refer % 2 ^ k ≡ (q - 1) % 2 ^ k
ahead k refer q h small positive =
    let d = 2 ^ k in
    let s = sub32 refer 1 in
    let (c, word) = rounds_in_word k (omega arith) in
    let start : add32 s q % d ≡ (s + q) % d = mod_word (s + q) k (omega arith) in
    let index = (s + q) % d in
    let whole = div-add-mod (s + q) d in
    let twice : d * (c + c) ≡ d * c + d * c = grind arith in
    rw start (
      mod_word (index + u32_mod - refer) k (omega arith) ∙ elim (ℕ_discrete refer 0) [
        | yes zero_refer ↦
            mod_shift d (index + u32_mod - refer) (q - 1) ((s + q) / d) (c + c)
              (omega (arith, whole, word, twice, zero_refer))
        | no ne ↦
            mod_shift d (index + u32_mod - refer) (q - 1) ((s + q) / d) c
              (omega (arith, whole, word, twice, small))
      ])

pub back_one :
    (b a r : ℕ) → r < b → 0 < b * a + r → (b * a + r - 1) % b ≡ (if r == 0 then b - 1 else r - 1)
back_one b zero zero lt h = absurd (omega arith)
back_one b (suc a) zero lt h =
    mod_unique (b * suc a + 0 - 1) b a (b - 1) (grind arith) (omega arith)
back_one b a (suc r) lt h =
    let e = mod_unique (b * a + suc r - 1) b a r (omega arith) (omega arith) in e ∙ ground arith

round_back : (b a : ℕ) → 0 < b → b - 1 + a * b + 1 ≡ b * suc a
round_back zero a h = absurd (omega arith)
round_back (suc b) a h = grind arith

pub due_steps :
    (b a c r prec : ℕ)
    → 0 < b
    → 0 < b * a + c
    → 0 < prec
    → c < b
    → (b * a + c - 1) % b + (a + (if prec * c + r == 0 then 0 else 1) - 1) * b + 1
      ≡ b * a + c + (if c == 0 && not (r == 0) then b else 0)
due_steps b zero zero r prec hb hq hp hc = absurd (omega arith)
due_steps b (suc a) zero zero prec hb hq hp hc =
    let z : (prec * 0 + 0 == 0) ≡ true = ground arith in
    rw (back_one b (suc a) 0 hc hq, z) (grind (arith, round_back b a hb))
due_steps b (suc a) zero (suc r) prec hb hq hp hc =
    let z : (prec * 0 + suc r == 0) ≡ false = ground arith in
    rw (back_one b (suc a) 0 hc hq, z) (grind (arith, round_back b (suc a) hb, mul-suc b (suc a)))
due_steps b a (suc c) r prec hb hq hp hc =
    let positive = mul-suc prec c in
    let z : (prec * suc c + r == 0) ≡ false = ground arith in
    let y : (suc c == 0) ≡ false = ground arith in
    let e : a + 1 - 1 ≡ a = omega arith in
    rw (back_one b a (suc c) hc hq, z, y, e) (omega (arith, mul_comm a b))

pub some_step :
    (b a c r prec : ℕ) → 0 < b * a + c → 0 < prec → 0 < a + (if prec * c + r == 0 then 0 else 1)
some_step b zero zero r prec hq hp = absurd (omega arith)
some_step b zero (suc c) r prec hq hp =
    let positive = mul-suc prec c in
    let z : (prec * suc c + r == 0) ≡ false = ground arith in rw z (omega arith)
some_step b (suc a) c r prec hq hp = omega arith

-- ===== src/Utils/Power.antt =====
-- nextpow2() of src/utils.c.
use Prim.Native.Nat.{bit_or, max}
use native.Mathlib.Nat.{div-div-eq-div-mul, pow-suc, mul-suc, mul_comm, mod-eq_of_lt}
use libevlite.Base.{
  some, ℕ, zero, suc, ◌+◌, ◌-◌, ◌*◌, ◌/◌, ◌%◌, ◌^◌, ◌≤◌, ◌<◌, ◌≡◌, ◌⊎◌, inl, inr, refl, sym, ap,
  ap₂, ◌∙◌, true, false, ◌==◌, if◌then◌else◌, arith, ℕ_discrete,
}
use libevlite.Base.Words.{u32_mod, add32, sub32}
use libevlite.Base.Bits.{bit_or_step, pow_pos, pow_mono}
use libevlite.Base.Div.{div_mod_mul}
use libevlite.Utils.Defs.{smear, nextpow2, getpower, getpower_loop}

-- `f` works bit by bit: a bit of `f x` is set if it or one of the `s - 1` bits above it is set in `x`.
record Spreads (s : ℕ) (f : ℕ → ℕ) : Type 0 where
  pub half : (x : ℕ) → f x / 2 ≡ f (x / 2)
  pub low : (x : ℕ) → f x % 2 ≡ (if x % 2 ^ s == 0 then 0 else 1)

shift :
    (s : ℕ) (f : ℕ → ℕ) → ((x : ℕ) → f x / 2 ≡ f (x / 2)) → (x : ℕ) → f x / 2 ^ s ≡ f (x / 2 ^ s)
shift zero f h x = omega (arith, ap f (div_one x))
  where
    div_one : (x : ℕ) → x / 2 ^ 0 ≡ x
    div_one x = omega arith
shift (suc s) f h x =
    let split : (y : ℕ) → y / 2 ^ suc s ≡ y / 2 ^ s / 2 =
      λ y. ap (λ p. y / p) (pow-suc 2 s) ∙ sym (div-div-eq-div-mul y (2 ^ s) 2) in
    split (f x) ∙ ap (λ y. y / 2) (shift s f h x) ∙ h (x / 2 ^ s) ∙ ap f (sym (split x))

smear-half : (s x : ℕ) → smear s x / 2 ≡ smear s (x / 2)
smear-half s x =
    let swap : x / 2 ^ s / 2 ≡ x / 2 / 2 ^ s =
      div-div-eq-div-mul x (2 ^ s) 2
      ∙ ap (λ p. x / p) (mul_comm (2 ^ s) 2)
      ∙ sym (div-div-eq-div-mul x 2 (2 ^ s)) in
    omega (arith, bit_or_step x (x / 2 ^ s), ap (bit_or (x / 2)) swap)

smear-low : (s x : ℕ) → smear s x % 2 ≡ max (x % 2) (x / 2 ^ s % 2)
smear-low s x = omega (arith, bit_or_step x (x / 2 ^ s))

two_pow_add : (a b : ℕ) → 2 ^ (a + b) ≡ 2 ^ a * 2 ^ b
two_pow_add a zero = let e : a + 0 ≡ a = omega arith in rw e (omega arith)
two_pow_add a (suc b) =
    let e : a + suc b ≡ suc (a + b) = omega arith in
    rw (e, pow-suc 2 (a + b), pow-suc 2 b, two_pow_add a b) (grind arith)

abbrev some_bit : ℕ → ℕ
some_bit n = if n == 0 then 0 else 1

either_digit : (p a b : ℕ) → 0 < p → max (some_bit b) (some_bit a) ≡ some_bit (p * a + b)
either_digit p zero zero h = ground arith
either_digit p zero (suc b) h = ground arith
either_digit p (suc a) b h = let big = mul-suc p a in ground (arith, big, h)

smear-Spreads : (s : ℕ) (f : ℕ → ℕ) → Spreads s f → Spreads (s + s) (λ x. smear s (f x))
smear-Spreads s f v = record {
  half = λ x. smear-half s (f x) ∙ ap (smear s) (v.half x);
  low = λ x.
      let p = 2 ^ s in
      let (_, whole) = div_mod_mul p p x (pow_pos s) (pow_pos s) in
      smear-low s (f x)
      ∙ ap₂ max (v.low x) (ap (λ y. y % 2) (shift s f v.half x) ∙ v.low (x / p))
      ∙ either_digit p (x / p % p) (x % p) (pow_pos s)
      ∙ ap some_bit (sym (ap (λ q. x % q) (two_pow_add s s) ∙ whole));
}

-- The five steps of nextpow2().
abbrev fill : ℕ → ℕ
fill x = smear 16 (smear 8 (smear 4 (smear 2 (smear 1 x))))

fill-Spreads : Spreads 32 fill
fill-Spreads =
    smear-Spreads 16 _
      (smear-Spreads 8 _ (smear-Spreads 4 _ (smear-Spreads 2 _ (smear-Spreads 1 _ plain))))
  where
    plain : Spreads 1 (λ x. x)
    plain = record { half = λ x. refl; low = λ x. ground arith }

fill_zero : fill 0 ≡ 0
fill_zero = refl

-- The result is all ones up to the highest bit of the word.
fill_ones :
    (k x : ℕ)
    → x < 2 ^ k
    → k ≤ 32
    → (n : ℕ) × (n ≤ k) × (fill x + 1 ≡ 2 ^ n) × (x < 2 ^ n) × ((n ≡ 0) ⊎ (2 ^ n ≤ 2 * x))
fill_ones zero x h le =
    let e : x ≡ 0 = omega arith in (0, omega arith, rw e refl, omega arith, inl refl)
fill_ones (suc k) x h le = elim (ℕ_discrete x 0) [
  | yes e ↦ (0, omega arith, rw e refl, omega arith, inl refl)
  | no ne ↦
      let word : x < 2 ^ 32 = omega (arith, pow_mono (suc k) 32 le) in
      let same : x % 2 ^ 32 ≡ x = mod-eq_of_lt word in
      let odd : fill x % 2 ≡ 1 = fill-Spreads.low x ∙ ground (arith, same, ne) in
      let halves = fill-Spreads.half x in
      let (n, small, ones, less, much) =
        fill_ones k (x / 2) (omega (arith, pow-suc 2 k)) (omega arith) in
      (
        suc n,
        omega arith,
        omega (arith, odd, halves, ones, pow-suc 2 n),
        omega (arith, less, pow-suc 2 n),
        inr (elim much [
          | inl zero_n ↦ omega (arith, pow-suc 2 n, ap (λ i. 2 ^ i) zero_n, ne)
          | inr large ↦ omega (arith, pow-suc 2 n, large)
        ]),
      )
]

-- nextpow2() of a size from 1 to 2 ^ 31 is the least power of two that is not below it.
pub nextpow2_lem :
    (size : ℕ)
    → 0 < size
    → size ≤ 2 ^ 31
    → (n : ℕ) × (n ≤ 31) × (nextpow2 size ≡ 2 ^ n) × (size ≤ 2 ^ n) × ((n ≡ 0) ⊎ (2 ^ n < 2 * size))
unfolding nextpow2
nextpow2_lem size h le =
    let back : sub32 size 1 ≡ size - 1 = omega arith in
    let (n, small, ones, less, much) = fill_ones 31 (size - 1) (omega arith) (omega arith) in
    let word = pow_mono n 31 small in
    (
      n,
      small,
      ap (λ x. add32 (fill x) 1) back ∙ omega (arith, ones, word),
      omega (arith, less, h),
      elim much [ inl zero_n ↦ inl zero_n | inr large ↦ inr (omega (arith, large, h)) ],
    )

-- The loop of getpower(), from the highest bit of the size.
getpower_loop-bit :
    (k fuel size n : ℕ)
    → k < fuel
    → 2 ^ k ≤ size
    → size < 2 ^ suc k
    → n + k < u32_mod
    → getpower_loop fuel size n ≡ some (n + k)
unfolding getpower_loop
getpower_loop-bit k zero size n lt lo hi small = absurd (omega arith)
getpower_loop-bit zero (suc fuel) size n lt lo hi small =
    let done : (size / 2 == 0) ≡ true = ground arith in
    let e : n + 0 ≡ n = omega arith in rw (done, e) refl
getpower_loop-bit (suc k) (suc fuel) size n lt lo hi small =
    let p = pow_pos k in
    let more : (size / 2 == 0) ≡ false = ground (arith, pow-suc 2 k) in
    let rest =
      getpower_loop-bit k fuel (size / 2) (add32 n 1) (omega arith) (omega (arith, pow-suc 2 k))
        (omega (arith, pow-suc 2 (suc k))) (omega arith) in
    rw more (rest ∙ ap some (omega arith))

-- getpower() of a size that is not 0 ends, with the position of its highest bit.
pub getpower_lem : (k size : ℕ) → k < 32 → 2 ^ k ≤ size → size < 2 ^ suc k → getpower size ≡ some k
unfolding getpower
getpower_lem k size lt lo hi =
    let e : 0 + k ≡ k = omega arith in
    getpower_loop-bit k 33 size 0 (omega arith) lo hi (omega arith) ∙ ap some e

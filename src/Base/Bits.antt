-- ===== src/Base/Bits.antt =====
-- `&` with a mask of ones and `|` of disjoint fields at variables, as arithmetic, for every width.
use Prim.Native.Nat.{◌∣◌, bit_and, digits, bit_and-bitwise, bit_or, bit_or-bitwise, max}
use native.Mathlib.Nat.{
  pow-suc, mul-add-mod_self_left, mod-eq_of_lt, div-add-mod, mod-lt, dvd_refl, dvd-mul_right_of_dvd,
  mod-mod_of_dvd, pow-le-pow_right,
}
use libevlite.Base.{
  ℕ, zero, suc, ◌+◌, ◌-◌, ◌*◌, ◌/◌, ◌%◌, ◌^◌, ◌≤◌, ◌<◌, ◌≡◌, refl, sym, ap, ◌∙◌, arith, min,
  ℕ_discrete,
}

-- `&` and `|` are recursions on the binary digits of their first argument, on fuel. What they share.
module _ (rest : ℕ → ℕ) (op : ℕ → ℕ → ℕ) where
  done : (fuel y : ℕ) → digits rest op fuel 0 y ≡ rest y
  done zero y = refl
  done (suc fuel) y = refl

  any_fuel : (f g x y : ℕ) → x ≤ f → x ≤ g → digits rest op f x y ≡ digits rest op g x y
  any_fuel f g zero y hf hg = done f y ∙ sym (done g y)
  any_fuel zero g (suc x) y hf hg = absurd (omega arith)
  any_fuel (suc f) zero (suc x) y hf hg = absurd (omega arith)
  any_fuel (suc f) (suc g) (suc x) y hf hg =
      let deeper = any_fuel f g (suc x / 2) (y / 2) (omega arith) (omega arith) in
      ap (λ d. d * 2 + op (suc x % 2) (y % 2)) deeper

  -- Against 0 on the right, by what each digit gives.
  against_zero :
      (value : ℕ → ℕ)
      → rest 0 ≡ value 0
      → ((x : ℕ) → value (x / 2) * 2 + op (x % 2) 0 ≡ value x)
      → (fuel x : ℕ) → x ≤ fuel
      → digits rest op fuel x 0 ≡ value x
  against_zero value start step fuel zero h = done fuel 0 ∙ start
  against_zero value start step zero (suc x) h = absurd (omega arith)
  against_zero value start step (suc fuel) (suc x) h =
      let deeper = against_zero value start step fuel (suc x / 2) (omega arith) in
      ap (λ d. d * 2 + op (suc x % 2) 0) deeper ∙ step (suc x)

  -- One digit.
  peel :
      (x y : ℕ)
      → rest (y / 2) * 2 + op 0 (y % 2) ≡ rest y
      → digits rest op x x y ≡ digits rest op (x / 2) (x / 2) (y / 2) * 2 + op (x % 2) (y % 2)
  peel zero y start = sym start
  peel (suc x) y start =
      let same = any_fuel x (suc x / 2) (suc x / 2) (y / 2) (omega arith) (omega arith) in
      ap (λ d. d * 2 + op (suc x % 2) (y % 2)) same

pub bit_and_step : (x y : ℕ) → bit_and x y ≡ bit_and (x / 2) (y / 2) * 2 + min (x % 2) (y % 2)
bit_and_step x y =
    rw (bit_and-bitwise x y, bit_and-bitwise (x / 2) (y / 2)) (peel (λ k. 0) min x y (omega arith))

bit_and-zero : (x : ℕ) → bit_and x 0 ≡ 0
bit_and-zero x =
    bit_and-bitwise x 0
    ∙ against_zero (λ k. 0) min (λ k. 0) refl (λ k. omega arith) x x (omega arith)

pub pow_pos : (k : ℕ) → 0 < 2 ^ k
pow_pos zero = omega arith
pow_pos (suc k) = omega (arith, pow-suc 2 k, pow_pos k)

-- The remainder is the one decomposition with a small rest.
pub mod_unique : (x q d r : ℕ) → x ≡ q * d + r → r < q → x % q ≡ r
mod_unique x q d r e h = rw (e, mul-add-mod_self_left q d r) (mod-eq_of_lt h)

mod_double : (x p : ℕ) → 0 < p → x % (p * 2) ≡ x / 2 % p * 2 + x % 2
mod_double x p h =
    mod_unique x (p * 2) (x / 2 / p) (x / 2 % p * 2 + x % 2) (grind (arith, div-add-mod (x / 2) p))
      (omega (arith, mod-lt (x / 2) h))

-- A mask of k ones is the remainder modulo 2 ^ k.
pub bit_and-mask : (x k : ℕ) → bit_and x (2 ^ k - 1) ≡ x % 2 ^ k
bit_and-mask x zero = omega (arith, bit_and-zero x)
bit_and-mask x (suc k) =
    let p = 2 ^ k in
    let e : 2 ^ suc k ≡ p * 2 = pow-suc 2 k in
    let q = pow_pos k in
    let half : (p * 2 - 1) / 2 ≡ p - 1 = omega arith in
    rw (e, bit_and_step x (p * 2 - 1), half, bit_and-mask (x / 2) k, mod_double x p q) (omega arith)

pub pow-dvd : (k m : ℕ) → k ≤ m → 2 ^ k ∣ 2 ^ m
pow-dvd k zero h = let e : k ≡ 0 = omega arith in rw e (dvd_refl 1)
pow-dvd k (suc m) h = elim (ℕ_discrete k (suc m)) [
  | yes e ↦ rw e (dvd_refl (2 ^ suc m))
  | no ne ↦ rw (pow-suc 2 m) (dvd-mul_right_of_dvd (2 ^ k) (pow-dvd k m (omega arith)) 2)
]

-- Truncation to a wider power of two is invisible to a narrower one.
pub mod_mod_pow : (x k m : ℕ) → k ≤ m → x % 2 ^ m % 2 ^ k ≡ x % 2 ^ k
mod_mod_pow x k m h = mod-mod_of_dvd (2 ^ k) x (pow-dvd k m h)

pub pow_mono : (k m : ℕ) → k ≤ m → 2 ^ k ≤ 2 ^ m
pow_mono k m h = pow-le-pow_right {n = 2} (omega arith) h

pub bit_or_step : (x y : ℕ) → bit_or x y ≡ bit_or (x / 2) (y / 2) * 2 + max (x % 2) (y % 2)
bit_or_step x y =
    rw (bit_or-bitwise x y, bit_or-bitwise (x / 2) (y / 2)) (peel (λ k. k) max x y (omega arith))

bit_or-zero : (x : ℕ) → bit_or x 0 ≡ x
bit_or-zero x =
    bit_or-bitwise x 0
    ∙ against_zero (λ k. k) max (λ k. k) refl (λ k. omega arith) x x (omega arith)

zero-bit_or : (y : ℕ) → bit_or 0 y ≡ y
zero-bit_or y = bit_or-bitwise 0 y

double_pow : (q k : ℕ) → q * 2 ^ suc k ≡ q * 2 ^ k * 2
double_pow q k = omega (arith, ap (λ (p : ℕ). q * p) (pow-suc 2 k))

-- A number above bit k and one below it share no bit: `|` adds them, on either side.
pub bit_or_high_low : (k q r : ℕ) → r < 2 ^ k → bit_or (q * 2 ^ k) r ≡ q * 2 ^ k + r
bit_or_high_low zero q r h =
    let e : q * 2 ^ 0 ≡ q = omega arith in
    let z : r ≡ 0 = omega arith in rw (e, z, bit_or-zero q) (omega arith)
bit_or_high_low (suc k) q r h =
    let half : q * 2 ^ suc k / 2 ≡ q * 2 ^ k = omega (arith, double_pow q k) in
    rw
      (
        bit_or_step (q * 2 ^ suc k) r,
        half,
        bit_or_high_low k q (r / 2) (omega (arith, pow-suc 2 k)),
      )
      (omega (arith, double_pow q k))

pub bit_or_low_high : (k q r : ℕ) → r < 2 ^ k → bit_or r (q * 2 ^ k) ≡ q * 2 ^ k + r
bit_or_low_high zero q r h =
    let e : q * 2 ^ 0 ≡ q = omega arith in
    let z : r ≡ 0 = omega arith in rw (e, z, zero-bit_or q) (omega arith)
bit_or_low_high (suc k) q r h =
    let half : q * 2 ^ suc k / 2 ≡ q * 2 ^ k = omega (arith, double_pow q k) in
    rw
      (
        bit_or_step r (q * 2 ^ suc k),
        half,
        bit_or_low_high k q (r / 2) (omega (arith, pow-suc 2 k)),
      )
      (omega (arith, double_pow q k))

-- ===== src/Base/Div.antt =====
-- Quotients and remainders.
use native.Mathlib.Nat.{div-add-mod, mod-lt, div-div-eq-div-mul, mul-le-mul_left, mul-suc}
use libevlite.Base.{ℕ, suc, ◌+◌, ◌*◌, ◌/◌, ◌%◌, ◌<◌, ◌≡◌, sym, ap, ◌∙◌, arith}
use libevlite.Base.Bits.{mod_unique}

spread : (p b q c r : ℕ) → p * (b * q + c) + r ≡ p * b * q + (p * c + r)
spread p b q c r = grind arith

-- Division by a product, in two steps.
pub div_mod_mul :
    (a b x : ℕ)
    → 0 < a
    → 0 < b
    → (x / (a * b) ≡ x / a / b) × (x % (a * b) ≡ a * (x / a % b) + x % a)
div_mod_mul a b x hp hb =
    let q = x / a in
    let r = x % a in
    let whole = div-add-mod x a in
    let inner = div-add-mod q b in
    let less = mod-lt x hp in
    let below = mul-le-mul_left {m = suc (q % b)} {n = b} a (omega (arith, mod-lt q hb)) in
    (
      sym (div-div-eq-div-mul x a b),
      mod_unique x (a * b) (q / b) (a * (q % b) + r)
          (sym whole ∙ ap (λ n. a * n + r) (sym inner) ∙ spread a b (q / b) (q % b) r)
          (omega (arith, mul-suc a (q % b))),
    )

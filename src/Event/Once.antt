-- ===== src/Event/Once.antt =====
-- Lists that hold an event at most once (the TAILQ lists of src/event.c).
use libevlite.Base.{
  ℕ, ◌+◌, ◌≡◌, ap, Bool, true, false, List, [], ◌∷◌, ◌++◌, ◌==◌, if◌then◌else◌, arith, occurs,
  occurs-append, ℕ_discrete,
}
use libevlite.Event.Defs.{unlink}

abbrev pub bit : Bool → ℕ
bit true = 1
bit false = 0

occurs-unlink :
    (e x : ℕ) (xs : List ℕ)
    → occurs e xs ≡ 1
    → occurs x (unlink e xs) + (if e == x then 1 else 0) ≡ occurs x xs
unfolding unlink
occurs-unlink e x [] h = absurd (omega (arith, h))
occurs-unlink e x (y ∷ ys) h = elim (ℕ_discrete y e) [
  | yes same ↦
      let a : (y == e) ≡ true = ground arith in
      let b : (y == x) ≡ (e == x) = ap (λ k. k == x) same in rw (a, b) (omega arith)
  | no ne ↦
      let a : (y == e) ≡ false = ground arith in
      let rest = occurs-unlink e x ys (ground (arith, h)) in rw a (omega (arith, rest))
]

-- One more, and one less.
pub one_more :
    (e x : ℕ) (xs : List ℕ) (f : Bool)
    → occurs x xs ≡ bit f
    → (e ≡ x → f ≡ false)
    → occurs x (xs ++ e ∷ []) ≡ bit (if e == x then true else f)
one_more e x xs f h new = elim (ℕ_discrete e x) [
  | yes same ↦
      let a : (e == x) ≡ true = ground arith in
      rw a (
        omega (
          arith,
          occurs-append x xs (e ∷ []),
          h,
          ap bit (new same),
          ap {B = ℕ} (λ (c : Bool). if c then 1 else 0) a,
        ))
  | no differ ↦
      let a : (e == x) ≡ false = ground arith in
      rw a (
        omega
          (arith, occurs-append x xs (e ∷ []), h, ap {B = ℕ} (λ (c : Bool). if c then 1 else 0) a))
]

pub one_less :
    (e x : ℕ) (xs : List ℕ) (f : Bool)
    → occurs x xs ≡ bit f
    → occurs e xs ≡ 1
    → occurs x (unlink e xs) ≡ bit (if e == x then false else f)
one_less e x xs f h there =
    let less = occurs-unlink e x xs there in
    elim (ℕ_discrete e x) [
      | yes same ↦
          let a : (e == x) ≡ true = ground arith in
          rw a (
            omega (
              arith,
              less,
              ap (λ k. occurs k xs) same,
              there,
              ap {B = ℕ} (λ (c : Bool). if c then 1 else 0) a,
            ))
      | no differ ↦
          let a : (e == x) ≡ false = ground arith in
          rw a (omega (arith, less, h, ap {B = ℕ} (λ (c : Bool). if c then 1 else 0) a))
    ]

-- ===== src/Queue/Window.antt =====
-- A run of elements in a ring, read from a counter that is never reset.
use native.Mathlib.Nat.{
  mod-add-mod, mod-eq_of_lt, mod-eq-sub-mod, mod-lt, add-zero, mod_self, zero-mod,
}
use native.Mathlib.Decide.{dec_le}
use libevlite.Base.{
  ℕ, zero, suc, ◌+◌, ◌-◌, ◌%◌, ◌≤◌, ◌<◌, ◌≡◌, ◌≢◌, refl, sym, ap, ap₂, ◌∙◌, List, [], ◌∷◌, ◌++◌,
  length, get_or, set, take, drop, min, arith, dec_lt, append-nil, get_or-set_self, get_or-set_ne,
}

module _ {ℓ} {A : Type ℓ} (null : A) where
  -- The `n` elements from counter `h` on, in an array of `size` elements.
  unfoldable pub window : List A → ℕ → ℕ → ℕ → List A
  window es size h zero = []
  window es size h (suc n) = get_or es (h % size) null ∷ window es size (h + 1) n

  pub length-window : (es : List A) (size h n : ℕ) → length (window es size h n) ≡ n
  unfolding window
  length-window es size h zero = refl
  length-window es size h (suc n) = ap suc (length-window es size (h + 1) n)

  -- Only the remainder of the counter counts.
  pub window_shift :
      (es : List A) (size h h' n : ℕ)
      → h % size ≡ h' % size
      → window es size h n ≡ window es size h' n
  unfolding window
  window_shift es size h h' zero e = refl
  window_shift es size h h' (suc n) e =
      ap₂ (λ i rest. get_or es i null ∷ rest) e
        (window_shift es size (h + 1) (h' + 1) n
          (sym (mod-add-mod h size 1) ∙ ap (λ i. (i + 1) % size) e ∙ mod-add-mod h' size 1))

  pub window-append :
      (es : List A) (size h a b : ℕ)
      → window es size h (a + b) ≡ window es size h a ++ window es size (h + a) b
  unfolding window
  window-append es size h zero b = ap₂ (λ i k. window es size i k) (omega arith) (omega arith)
  window-append es size h (suc a) b =
      let count : suc a + b ≡ suc (a + b) = omega arith in
      let next : h + suc a ≡ h + 1 + a = omega arith in
      rw (count, next)
        (ap (λ rest. get_or es (h % size) null ∷ rest) (window-append es size (h + 1) a b))

-- Fewer steps than the size of the ring lead to another slot.
pub mod_ne : (s a d : ℕ) → 0 < d → d < s → a % s ≢ (a + d) % s
mod_ne s a d pos h e = elim (dec_lt (a % s + d) s) [
  | yes p ↦ omega (arith, mod-add-mod a s d, mod-eq_of_lt p)
  | no p ↦ omega (
    arith,
    mod-add-mod a s d,
    mod-lt a {m = s} (omega arith),
    mod-eq-sub-mod {n = a % s + d} {m = s} (omega arith),
    mod-eq_of_lt {n = a % s + d - s} {m = s} (omega (arith, mod-lt a {m = s} (omega arith))),
  )
]

module _ {ℓ} {A : Type ℓ} where
  pub take-drop-suc :
      (es : List A) (i n : ℕ) (null : A)
      → i < length es
      → take (suc n) (drop i es) ≡ get_or es i null ∷ take n (drop (suc i) es)
  take-drop-suc [] i n null h = absurd (omega arith)
  take-drop-suc (x ∷ es) zero n null h = refl
  take-drop-suc (x ∷ es) (suc i) n null h = take-drop-suc es i n null (omega arith)

module _ {ℓ} {A : Type ℓ} (null : A) where
  -- A window that does not pass the end of the array is a slice of it.
  pub window-slice :
      (es : List A) (size h n : ℕ)
      → length es ≡ size
      → h % size + n ≤ size
      → 0 < size
      → window null es size h n ≡ take n (drop (h % size) es)
  unfolding window
  window-slice es size h zero e le pos = refl
  window-slice es size h (suc zero) e le pos =
      sym (take-drop-suc es (h % size) 0 null (omega arith))
  window-slice es size h (suc (suc n)) e le pos =
      let step : (h + 1) % size ≡ suc (h % size) =
        sym (mod-add-mod h size 1) ∙ (mod-eq_of_lt (omega arith) ∙ omega arith) in
      rw (take-drop-suc es (h % size) (suc n) null (omega arith)) (
        ap (λ rest. get_or es (h % size) null ∷ rest)
          (window-slice es size (h + 1) (suc n) e (omega arith) pos
            ∙ ap (λ i. take (suc n) (drop i es)) step))

  -- The two slices of a window: up to the end of the array, and from its beginning.
  pub window-slices :
      (es : List A) (size h n len : ℕ)
      → length es ≡ size
      → n ≤ size
      → 0 < size
      → len ≡ min (size - h % size) n
      → window null es size h n ≡ take len (drop (h % size) es) ++ take (n - len) es
  window-slices es size h n len e le pos split = elim (dec_le (h % size + n) size) [
    | yes p ↦
        let all : len ≡ n = omega (arith, mod-lt h pos) in
        let none_left : n - len ≡ 0 = omega arith in
        rw (none_left, all, append-nil) (window-slice es size h n e p pos)
    | no p ↦
        let bound = mod-lt h pos in
        let upto : len ≡ size - h % size = omega arith in
        let parts : n ≡ len + (n - len) = omega arith in
        let whole : h % size + len ≡ size = omega arith in
        let round : (h + len) % size ≡ 0 % size =
          sym (mod-add-mod h size len)
          ∙ ap (λ k. k % size) (whole)
          ∙ mod_self size
          ∙ sym (zero-mod size) in
        ap (window null es size h) parts
        ∙ window-append null es size h len (n - len)
        ∙ ap₂ ◌++◌ (window-slice es size h len e (omega arith) pos) (
            window_shift null es size (h + len) 0 (n - len) round
            ∙ window-slice es size 0 (n - len) e (omega (arith, zero-mod size)) pos
            ∙ ap (λ k. take (n - len) (drop k es)) (zero-mod size))
  ]

  -- Writing the slot behind a window extends the window by the element.
  pub window-set :
      (es : List A) (size h n i : ℕ) (x : A)
      → length es ≡ size
      → n < size
      → i ≡ (h + n) % size
      → window null (set es i x) size h (suc n) ≡ window null es size h n ++ x ∷ []
  unfolding window
  window-set es size h zero i x e le at =
      rw (at, add-zero)
        (ap (λ y. y ∷ []) (get_or-set_self es (h % size) x null (omega (arith, mod-lt h le))))
  window-set es size h (suc n) i x e le at =
      ap₂ ◌∷◌
        (get_or-set_ne es i (h % size) x null
          (λ same. mod_ne size h (suc n) (omega arith) le (sym same ∙ at)))
        (window-set es size (h + 1) n i x e (omega arith) (at ∙ ap (λ k. k % size) (omega arith)))

  pub window-get :
      (es : List A) (size h n i : ℕ)
      → i < n
      → get_or (window null es size h n) i null ≡ get_or es ((h + i) % size) null
  unfolding window
  window-get es size h zero i lt = absurd (omega arith)
  window-get es size h (suc n) zero lt = ap (λ k. get_or es (k % size) null) (omega arith)
  window-get es size h (suc n) (suc i) lt =
      window-get es size (h + 1) n i (omega arith)
      ∙ ap (λ k. get_or es (k % size) null) (omega arith)

-- ===== src/Event/Wait.antt =====
-- How long evsets_dispatch() (src/event.c) waits, and when it moves the timers.
use libevlite.Base.{ℕ, ◌≡◌, refl, sym, ap, ◌∙◌, subst, true, List, [], ◌∷◌, arith, inl, inr, ◌⊎◌}
use libevlite.Base.Int.{ℤ, pos, negsuc, ◌-ℤ◌, ◌≤ℤ◌}
use libevlite.Event.Defs.{EventSet}
use libevlite.Event.Loop.{to_int32, wait_between, get_current, wait_time}

wait_between_lem :
    (p : ℕ) (seconds : ℤ)
    → (pos 0 ≤ℤ wait_between (pos p) seconds) × (wait_between (pos p) seconds ≤ℤ pos p)
wait_between_lem p (negsuc n) = ground arith
wait_between_lem p (pos n) = ground arith

list_cases : (l : List ℕ) → (l ≡ []) ⊎ ((e : ℕ) × (es : List ℕ) × (l ≡ e ∷ es))
list_cases [] = inl refl
list_cases (e ∷ es) = inr (e, es, refl)

module _ {B : Type 0} where
  -- What evsets_dispatch() lets the backend wait is never negative and never more than the precision of
  -- the timers, however far off the expiry is (the cast to 32 bits included), for a precision that
  -- is not negative.
  pub wait_time-bounds :
      (now : ℤ) (s : EventSet B) (p : ℕ)
      → s.timer_precision ≡ pos p
      → let w = (wait_time now s).0 in (pos 0 ≤ℤ w) × (w ≤ℤ s.timer_precision)
  unfolding wait_time
  wait_time-bounds now s p h = elim (list_cases s.activelist) [
    | inl nothing ↦
        let seconds = to_int32 (s.expire_time -ℤ (get_current now s true).0) in
        let at : (wait_time now s).0 ≡ wait_between (pos p) seconds =
          ap (λ l. (choice l).0) nothing ∙ ap (λ q. wait_between q seconds) h in
        subst Good (sym at) (
          let (a, b) = wait_between_lem p seconds in
          (a, subst (λ q. wait_between (pos p) seconds ≤ℤ q) (sym h) b))
    | inr (e, es, some_active) ↦
        let at : (wait_time now s).0 ≡ pos 0 = ap (λ l. (choice l).0) some_active in
        subst Good (sym at) (omega arith, subst (λ q. pos 0 ≤ℤ q) (sym h) (omega arith))
  ]
    where
      choice : List ℕ → ℤ × EventSet B
      choice l =
          let (current, s₁) = get_current now s true in
          elim l [
            | [] ↦ (wait_between s.timer_precision (to_int32 (s.expire_time -ℤ current)), s₁)
            | e ∷ es ↦ (pos 0, s)
          ]

      Good : ℤ → Type 0
      Good w = (pos 0 ≤ℤ w) × (w ≤ℤ s.timer_precision)

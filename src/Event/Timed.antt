-- ===== src/Event/Timed.antt =====
-- What evtimer_dispatch() (src/timer.c) keeps of the events that stay in the wheel.
use libevlite.Base.{
  ℕ, suc, ◌*◌, ◌^◌, ◌≤◌, ◌<◌, ◌≡◌, ◌≢◌, sym, ap, ap₂, ◌∙◌, subst, List, if◌then◌else◌, arith,
  ℕ_discrete, inl, inr, occurs, Bool-cases, dec_lt,
}
use libevlite.Base.Int.{ℤ, pos, negsuc}
use libevlite.Event.Defs.{Event, EventSet}
use libevlite.Event.Wheel.{bucket}
use libevlite.Event.Due.{IsWheel}
use libevlite.Event.Dispatch.{is_last_round, kept, IsTimedIn}
use libevlite.Event.Advance.{current, occurs-kept, IsTimed, one_of, all_of, Advanced}

-- Out of the last round.
pub last_gone :
    (f : ℕ → Event) (x : ℕ) (es : List ℕ) → (f x).timer_stepcnt ≡ pos 1 → occurs x (kept f es) ≡ 0
last_gone f x es h = occurs-kept f x es ∙ ap (λ c. if is_last_round c then 0 else occurs x es) h

pub more_stays :
    (f : ℕ → Event) (x n : ℕ) (es : List ℕ)
    → (f x).timer_stepcnt ≡ pos (suc (suc n))
    → occurs x (kept f es) ≡ occurs x es
more_stays f x n es h = occurs-kept f x es ∙ ap (λ c. if is_last_round c then 0 else occurs x es) h

kept_fewer : (f : ℕ → Event) (x : ℕ) (es : List ℕ) → occurs x (kept f es) ≤ occurs x es
kept_fewer f x es = elim (Bool-cases (is_last_round (f x).timer_stepcnt)) [
  | inl last ↦
      let e = occurs-kept f x es ∙ ap (λ c. if c then 0 else occurs x es) last in omega (arith, e)
  | inr more ↦
      let e = occurs-kept f x es ∙ ap (λ c. if c then 0 else occurs x es) more in omega (arith, e)
]

abbrev number : ℤ → ℕ
number (pos n) = n
number (negsuc n) = 0

module _ {B : Type 0} where
  pub Advanced-IsWheel :
      (s s' : EventSet B) → Advanced s s' → IsWheel s.core_timer → IsWheel s'.core_timer
  Advanced-IsWheel s s' a v =
      let (k, le, pow) = v.power in
      record {
        power = (k, le, a.count ∙ pow);
        stored = a.size ∙ v.stored ∙ sym a.count;
        refer_word = omega (arith, a.refer);
        precise = omega (arith, a.precision, v.precise);
        round = subst (λ n. n < 2 ^ 31) (sym (ap₂ (λ p c. p * c) a.precision a.count)) v.round;
      }

  -- An event is in no other bucket than its own.
  pub only_there :
      (s : EventSet B) (i b x : ℕ)
      → IsTimed s
      → i ≢ b
      → 0 < occurs x (bucket s.core_timer b)
      → occurs x (bucket s.core_timer i) ≡ 0
  only_there s i b x v ne h = elim (dec_lt 0 (occurs x (bucket s.core_timer i))) [
    | yes lt ↦
        let (index_i, _) = one_of s i x (bucket s.core_timer i) (v.timed i) lt in
        let (index_b, _) = one_of s b x (bucket s.core_timer b) (v.timed b) h in
        absurd (ne (ap number (sym index_i ∙ index_b)))
    | no z ↦ omega arith
  ]

  kept_timed :
      (s s' : EventSet B) (b x : ℕ)
      → Advanced s s'
      → IsTimed s
      → 0 < occurs x (bucket s'.core_timer b)
      → IsTimedIn s' b x
  kept_timed s s' b x a v h = elim (ℕ_discrete (current s.core_timer) b) [
    | yes same ↦
        subst (λ i. IsTimedIn s' i x) same
          (in_current (subst (λ i. 0 < occurs x (bucket s'.core_timer i)) (sym same) h))
    | no ne ↦
        let before = subst (λ es. 0 < occurs x es) (a.elsewhere b ne) h in
        let same = a.others x (only_there s (current s.core_timer) b x v ne before) in
        let (index, (n, step)) = one_of s b x (bucket s.core_timer b) (v.timed b) before in
        (ap (λ e. e.timer_index) same ∙ index, (n, ap (λ e. e.timer_stepcnt) same ∙ step))
  ]
    where
      i : ℕ
      i = current s.core_timer

      in_current : 0 < occurs x (bucket s'.core_timer i) → IsTimedIn s' i x
      in_current lt =
          let es = bucket s.core_timer i in
          let there = subst (λ l. 0 < occurs x l) a.here lt in
          let was : 0 < occurs x es = omega (arith, there, kept_fewer s.stored x es) in
          let (index, _) = one_of s i x es (v.timed i) was in
          elim (a.ticked x was) [
            | inl (n, step, e) ↦
                (ap (λ w. w.timer_index) e ∙ index, (n, ap (λ w. w.timer_stepcnt) e))
            | inr (step, f) ↦ absurd (omega (arith, there, last_gone s.stored x es step))
          ]

  pub dispatched-IsTimed : (s s' : EventSet B) → Advanced s s' → IsTimed s → IsTimed s'
  dispatched-IsTimed s s' a v = record {
    wheel = Advanced-IsWheel s s' a v.wheel;
    once = λ b x. elim (ℕ_discrete (current s.core_timer) b) [
      | yes same ↦
          subst (λ i. occurs x (bucket s'.core_timer i) ≤ 1) same
            (omega (
              arith,
              ap (occurs x) a.here,
              kept_fewer s.stored x (bucket s.core_timer (current s.core_timer)),
              v.once (current s.core_timer) x,
            ))
      | no ne ↦ subst (λ es. occurs x es ≤ 1) (sym (a.elsewhere b ne)) (v.once b x)
    ];
    timed = λ b. all_of s' b (bucket s'.core_timer b) (λ x h. kept_timed s s' b x a v h);
  }

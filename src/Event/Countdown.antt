-- ===== src/Event/Countdown.antt =====
-- evtimer_dispatch() (src/timer.c) as a countdown for every event of the wheel.
use libevlite.Base.{
  ℕ, zero, suc, ◌+◌, ◌-◌, ◌*◌, ◌%◌, ◌^◌, ◌<◌, ◌≡◌, ◌≢◌, sym, ap, ap₂, ◌∙◌, subst, false, some, List,
  [], ◌∷◌, length, ◌==◌, if◌then◌else◌, get_or, arith, ℕ_discrete, ◌⊎◌, inl, inr, occurs,
}
use libevlite.Base.Int.{ℤ, pos}
use libevlite.Base.Bits.{pow_pos}
use libevlite.Base.Words.{sub32}
use libevlite.Event.Defs.{EventSet, Timer}
use libevlite.Event.Wheel.{bucket, dispatch}
use libevlite.Event.Due.{IsWheel, due, wheel_index-mod}
use libevlite.Event.Offset.{offset, offset_here, offset_elsewhere, offset_step}
use libevlite.Event.Tick.{HasFired}
use libevlite.Event.Dispatch.{fired}
use libevlite.Event.Timed.{last_gone, more_stays, Advanced-IsWheel, only_there, dispatched-IsTimed}
use libevlite.Event.Advance.{current, IsTimed, one_of, Advanced, dispatch-Advanced}

due-offset :
    (t : Timer) (k b n : ℕ)
    → IsWheel t
    → t.bucket_count ≡ 2 ^ k
    → due t (pos b) (pos (suc n)) ≡ offset k t.dispatch_refer b + n * 2 ^ k + 1
due-offset t k b n v pow =
    ap (λ m. m + n * t.bucket_count + 1) (wheel_index-mod t (sub32 b t.dispatch_refer) v)
    ∙ ap (λ c. sub32 b t.dispatch_refer % c + n * c + 1) pow

due-timed :
    (t : Timer) (index step : ℤ) (k b n : ℕ)
    → IsWheel t
    → t.bucket_count ≡ 2 ^ k
    → index ≡ pos b
    → step ≡ pos (suc n)
    → due t index step ≡ offset k t.dispatch_refer b + n * 2 ^ k + 1
due-timed t index step k b n v pow e f = ap₂ (due t) e f ∙ due-offset t k b n v pow

in_range : (arr : List (List ℕ)) (b x : ℕ) → 0 < occurs x (get_or arr b []) → b < length arr
in_range [] b x h = absurd (omega arith)
in_range (es ∷ arr) zero x h = omega arith
in_range (es ∷ arr) (suc b) x h = omega (arith, in_range arr b x h)

module _ {B : Type 0} where
  -- The state of an event after the call.
  abbrev pub Expired : EventSet B → ℕ → ℕ → ℕ → Type 0
  Expired s' b x left =
      (left ≡ 1) × HasFired (s'.stored x) × (occurs x (bucket s'.core_timer b) ≡ 0)

  abbrev pub Nearer : EventSet B → EventSet B → ℕ → ℕ → ℕ → Type 0
  Nearer s s' b x left =
      (due s'.core_timer (s'.stored x).timer_index (s'.stored x).timer_stepcnt + 1 ≡ left)
      × (occurs x (bucket s'.core_timer b) ≡ 1)
      × ((s'.stored x).status ≡ (s.stored x).status)

  due_elsewhere :
      (s s' : EventSet B) (b x : ℕ)
      → Advanced s s'
      → IsTimed s
      → 0 < occurs x (bucket s.core_timer b)
      → current s.core_timer ≢ b
      → Nearer s s' b x (due s.core_timer (s.stored x).timer_index (s.stored x).timer_stepcnt)
  due_elsewhere s s' b x a v h ne =
      let t = s.core_timer in
      let t' = s'.core_timer in
      let (k, le, pow) = v.wheel.power in
      let same = a.others x (only_there s (current t) b x v ne h) in
      let (index, (n, step)) = one_of s b x (bucket t b) (v.timed b) h in
      let lt : b < 2 ^ k = omega (arith, in_range t.bucket_array b x h, v.wheel.stored, pow) in
      let away : offset k t.dispatch_refer b ≢ 0 = λ here. ne (
        wheel_index-mod t t.dispatch_refer v.wheel
        ∙ ap (λ c. t.dispatch_refer % c) pow
        ∙ sym (offset_elsewhere k t.dispatch_refer b le v.wheel.refer_word lt here)) in
      let miss : (offset k t.dispatch_refer b == 0) ≡ false = ground arith in
      let step_on =
        ap (λ r. offset k r b) a.refer
        ∙ offset_step k t.dispatch_refer b le v.wheel.refer_word lt
        ∙ ap (λ c. if c then 2 ^ k - 1 else offset k t.dispatch_refer b - 1) miss in
      let before =
        due-timed t (s.stored x).timer_index (s.stored x).timer_stepcnt k b n v.wheel pow index
          step in
      let after =
        due-timed t' (s'.stored x).timer_index (s'.stored x).timer_stepcnt k b n
          (Advanced-IsWheel s s' a v.wheel) (a.count ∙ pow) (ap (λ e. e.timer_index) same ∙ index)
          (ap (λ e. e.timer_stepcnt) same ∙ step) in
      (
        omega (arith, before, after, step_on, away),
        omega (arith, ap (occurs x) (a.elsewhere b ne), v.once b x, h),
        ap (λ w. w.status) same,
      )

  due_here :
      (s s' : EventSet B) (x : ℕ)
      → Advanced s s'
      → IsTimed s
      → let t = s.core_timer in
        let left = due t (s.stored x).timer_index (s.stored x).timer_stepcnt in
        let b = current t in 0 < occurs x (bucket t b) → Expired s' b x left ⊎ Nearer s s' b x left
  due_here s s' x a v h =
      let t = s.core_timer in
      let t' = s'.core_timer in
      let b = current t in
      let es = bucket t b in
      let (k, le, pow) = v.wheel.power in
      let (index, _) = one_of s b x es (v.timed b) h in
      let lt : b < 2 ^ k = omega (arith, in_range t.bucket_array b x h, v.wheel.stored, pow) in
      let where_now : b ≡ t.dispatch_refer % 2 ^ k =
        wheel_index-mod t t.dispatch_refer v.wheel ∙ ap (λ c. t.dispatch_refer % c) pow in
      let reached : offset k t.dispatch_refer b ≡ 0 =
        ap (offset k t.dispatch_refer) where_now
        ∙ offset_here k t.dispatch_refer le v.wheel.refer_word in
      elim (a.ticked x h) [
        | inl (n, step, e) ↦
            let step_on =
              ap (λ r. offset k r b) a.refer
              ∙ offset_step k t.dispatch_refer b le v.wheel.refer_word lt
              ∙ ap (λ o. if o == 0 then 2 ^ k - 1 else o - 1) reached in
            let before =
              due-timed t (s.stored x).timer_index (s.stored x).timer_stepcnt k b (suc n) v.wheel
                pow index step in
            let after =
              due-timed t' (s'.stored x).timer_index (s'.stored x).timer_stepcnt k b n
                (Advanced-IsWheel s s' a v.wheel) (a.count ∙ pow)
                (ap (λ w. w.timer_index) e ∙ index) (ap (λ w. w.timer_stepcnt) e) in
            let round : suc n * 2 ^ k ≡ n * 2 ^ k + 2 ^ k = grind arith in
            inr (
              omega (arith, before, after, step_on, reached, round, pow_pos k),
              omega (arith, ap (occurs x) a.here, more_stays s.stored x n es step, v.once b x, h),
              ap (λ w. w.status) e,
            )
        | inr (step, f) ↦
            let before =
              due-timed t (s.stored x).timer_index (s.stored x).timer_stepcnt k b 0 v.wheel pow
                index step in
            inl (
              omega (arith, before, reached),
              f,
              ap (occurs x) a.here ∙ last_gone s.stored x es step,
            )
      ]

  -- evtimer_dispatch() returns when every event of the wheel is in one place, knows its bucket and has
  -- rounds left, which then holds again. It returns the number of events of the current bucket
  -- that are in their last round. For each event of the wheel, either it was due with this call, and is then
  -- out of its bucket and active with EV_TIMEOUT, or it stays in its bucket with its
  -- status as it was and is due one call earlier.
  pub dispatch-due :
      (s : EventSet B) (b x : ℕ)
      → IsTimed s
      → 0 < occurs x (bucket s.core_timer b)
      → let t = s.core_timer in
        let ev = s.stored x in
        let left = due t ev.timer_index ev.timer_stepcnt in
        (s' : EventSet B) × (dispatch s ≡ some (s', fired s.stored (bucket t (current t))))
        × IsTimed s'
        × (Expired s' b x left ⊎ Nearer s s' b x left)
  dispatch-due s b x v h =
      let t = s.core_timer in
      let (s', runs, a) = dispatch-Advanced s v in
      (
        s',
        runs,
        dispatched-IsTimed s s' a v,
        elim (ℕ_discrete (current t) b) [
          | yes same ↦
              let left = due t (s.stored x).timer_index (s.stored x).timer_stepcnt in
              subst (λ i. Expired s' i x left ⊎ Nearer s s' i x left) same
                (due_here s s' x a v (subst (λ i. 0 < occurs x (bucket t i)) (sym same) h))
          | no ne ↦ inr (due_elsewhere s s' b x a v h ne)
        ],
      )

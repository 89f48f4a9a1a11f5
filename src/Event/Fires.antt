-- ===== src/Event/Fires.antt =====
-- evtimer_append() and the calls of evtimer_dispatch() (src/timer.c) that follow.
use native.Mathlib.Nat.{le-div_iff_mul-le}
use libevlite.Base.{
  ℕ, zero, suc, ◌+◌, ◌/◌, ◌^◌, ◌≤◌, ◌<◌, ◌≡◌, refl, sym, ap, ap₂, ◌⊎◌, ◌≢◌, ◌∙◌, subst, Option,
  none, some, [], ◌∷◌, get_or-set_self, get_or-set_ne, arith, ℕ_discrete, inl, inr, occurs,
  occurs-append, assign_self, assign_ne,
}
use libevlite.Base.Int.{pos}
use libevlite.Event.Defs.{EventSet, inserted_last}
use libevlite.Event.Wheel.{bucket, dispatch, append, append_at, steps}
use libevlite.Event.Due.{
  IsWheel, due, at_least, late, place, append-due, append-timed, place-lt, steps_positive,
}
use libevlite.Event.Tick.{HasFired}
use libevlite.Event.Dispatch.{IsTimedIn, occurs_self, occurs_other}
use libevlite.Event.Advance.{IsTimed, one_of, all_of}
use libevlite.Event.Countdown.{dispatch-due}

positive_suc : (n : ℕ) → 0 < n → (m : ℕ) × (n ≡ suc m)
positive_suc zero h = absurd (omega arith)
positive_suc (suc n) h = (n, refl)

module _ {B : Type 0} where
  abbrev state : Option (EventSet B × ℕ) → Option (EventSet B)
  state none = none
  state (some (s, rc)) = some s

  abbrev then_again : (EventSet B → Option (EventSet B)) → Option (EventSet B) → Option (EventSet B)
  then_again f none = none
  then_again f (some s) = f s

  -- `n` calls of evtimer_dispatch().
  unfoldable pub dispatch_times : ℕ → EventSet B → Option (EventSet B)
  dispatch_times zero s = some s
  dispatch_times (suc n) s = then_again (dispatch_times n) (state (dispatch s))

  -- The state of an event of bucket `b` that is due with the call number `n`, after `k` calls.
  abbrev pub IsAfter : ℕ → ℕ → EventSet B → EventSet B → ℕ → ℕ → Type 0
  IsAfter k n s s' b x =
      ((k ≡ n) × HasFired (s'.stored x))
      ⊎ ((k < n)
          × (occurs x (bucket s'.core_timer b) ≡ 1)
          × ((s'.stored x).status ≡ (s.stored x).status))

  not_due :
      (s : EventSet B) (b x : ℕ)
      → IsTimed s
      → 0 < occurs x (bucket s.core_timer b)
      → due s.core_timer (s.stored x).timer_index (s.stored x).timer_stepcnt + 1 ≢ 1
  not_due s b x v h last =
      let (index, (m, step)) = one_of s b x (bucket s.core_timer b) (v.timed b) h in
      absurd (omega (arith, ap₂ (due s.core_timer) index step, last))

  -- An event of the wheel fires with the call with which it is due, and with none before.
  fires :
      (k n : ℕ) (s : EventSet B) (b x : ℕ)
      → IsTimed s
      → 0 < occurs x (bucket s.core_timer b)
      → due s.core_timer (s.stored x).timer_index (s.stored x).timer_stepcnt ≡ suc n
      → k ≤ suc n
      → (s' : EventSet B) × (dispatch_times k s ≡ some s') × IsTimed s' × IsAfter k (suc n) s s' b x
  unfolding dispatch_times
  fires zero n s b x v h left within =
      (s, refl, v, inr (omega arith, omega (arith, v.once b x, h), refl))
  fires (suc (suc k)) zero s b x v h left within = absurd (omega (arith, within))
  fires (suc zero) zero s b x v h left within =
      let (s', runs, v', state_of) = dispatch-due s b x v h in
      elim state_of [
        | inl (one, f, gone) ↦
            (s', ap (λ r. then_again (dispatch_times 0) (state r)) runs, v', inl (refl, f))
        | inr (nearer, stays, quiet) ↦
            absurd (not_due s' b x v' (omega (arith, stays)) (nearer ∙ left))
      ]
  fires (suc k) (suc n) s b x v h left within =
      let (s₁, runs, v₁, state_of) = dispatch-due s b x v h in
      elim state_of [
        | inl (one, f, gone) ↦ absurd (omega (arith, one, left))
        | inr (nearer, stays, quiet) ↦
            let (s', more, v', after) =
              fires k n s₁ b x v₁ (omega (arith, stays)) (omega (arith, nearer, left))
                (omega (arith, within)) in
            (
              s',
              ap (λ r. then_again (dispatch_times k) (state r)) runs ∙ more,
              v',
              elim after [
                | inl (all, f) ↦ inl (ap suc all, f)
                | inr (fewer, waits, still) ↦ inr (omega (arith, fewer), waits, still ∙ quiet)
              ],
            )
      ]

  -- The event that is put into the wheel, and the others.
  appended_timed :
      (s : EventSet B) (x msecs b y : ℕ)
      → IsTimed s
      → ((i : ℕ) → occurs x (bucket s.core_timer i) ≡ 0)
      → 0 < occurs y (bucket (append_at s x msecs).core_timer b)
      → IsTimedIn (append_at s x msecs) b y
  unfolding append_at
  appended_timed s x msecs b y v new h =
      let t = s.core_timer in
      let tv = at_least t msecs in
      let i = place t tv in
      let inside = place-lt t tv v.wheel in
      let (n, positive) =
        positive_suc (steps t tv) (steps_positive t tv (ground (arith, v.wheel.precise))) in
      elim (ℕ_discrete x y) [
        | yes same ↦
            let place_of : i ≡ b = elim (ℕ_discrete i b) [
              | yes e ↦ e
              | no ne ↦ absurd (
                  omega (
                    arith,
                    new b,
                    ap (λ z. occurs z (bucket t b)) same,
                    h,
                    ap (occurs y)
                        (get_or-set_ne t.bucket_array i b (inserted_last x (bucket t i)) [] ne),
                  ))
            ] in
            subst (IsTimedIn (append_at s x msecs) b) same (
              ap (λ w. w.timer_index) (assign_self s.stored x _) ∙ ap pos place_of,
              (n, ap (λ w. w.timer_stepcnt) (assign_self s.stored x _) ∙ ap pos positive),
            )
        | no ne ↦
            let before : 0 < occurs y (bucket t b) = elim (ℕ_discrete i b) [
              | yes e ↦
                  subst (λ j. 0 < occurs y (bucket t j)) e
                    (omega (
                      arith,
                      subst (λ j. 0 < occurs y (bucket (append_at s x msecs).core_timer j)) (sym e)
                          h,
                      ap (occurs y) (
                          get_or-set_self t.bucket_array i (inserted_last x (bucket t i)) []
                            inside),
                      occurs-append y (bucket t i) (x ∷ []),
                      occurs_other x y [] ne,
                    ))
              | no away ↦
                  subst (λ es. 0 < occurs y es)
                    (get_or-set_ne t.bucket_array i b (inserted_last x (bucket t i)) [] away) h
            ] in
            let (index, (m, step)) = one_of s b y (bucket t b) (v.timed b) before in
            let same =
              assign_ne s.stored x y
                (record (s.stored x) { timer_index = pos i; timer_stepcnt = pos (steps t tv) })
                ne in
            (ap (λ w. w.timer_index) same ∙ index, (m, ap (λ w. w.timer_stepcnt) same ∙ step))
      ]

  appended_once :
      (s : EventSet B) (x msecs b y : ℕ)
      → IsTimed s
      → ((i : ℕ) → occurs x (bucket s.core_timer i) ≡ 0)
      → occurs y (bucket (append_at s x msecs).core_timer b) ≤ 1
  unfolding append_at
  appended_once s x msecs b y v new =
      let t = s.core_timer in
      let i = place t (at_least t msecs) in
      let inside = place-lt t (at_least t msecs) v.wheel in
      elim (ℕ_discrete i b) [
        | yes e ↦
            subst (λ j. occurs y (bucket (append_at s x msecs).core_timer j) ≤ 1) e
              (let here =
                  ap (occurs y)
                    (get_or-set_self t.bucket_array i (inserted_last x (bucket t i)) [] inside) in
                let both = occurs-append y (bucket t i) (x ∷ []) in
                elim (ℕ_discrete x y) [
                  | yes same ↦ omega (
                    arith,
                    here,
                    both,
                    new i,
                    ap (λ z. occurs z (bucket t i)) same,
                    ap (λ z. occurs z (x ∷ [])) same,
                    occurs_self x [],
                  )
                  | no ne ↦ omega (arith, here, both, v.once i y, occurs_other x y [] ne)
                ])
        | no ne ↦
            subst (λ es. occurs y es ≤ 1)
              (sym (get_or-set_ne t.bucket_array i b (inserted_last x (bucket t i)) [] ne))
              (v.once b y)
      ]

  pub appended-IsTimed :
      (s : EventSet B) (x msecs : ℕ)
      → IsTimed s
      → IsWheel (append_at s x msecs).core_timer
      → ((i : ℕ) → occurs x (bucket s.core_timer i) ≡ 0)
      → IsTimed (append_at s x msecs)
  appended-IsTimed s x msecs v wheel new = record {
    wheel = wheel;
    once = λ b y. appended_once s x msecs b y v new;
    timed = λ b.
        all_of (append_at s x msecs) b (bucket (append_at s x msecs).core_timer b)
          (λ y h. appended_timed s x msecs b y v new h);
  }

  append_at-status :
      (s : EventSet B) (x msecs : ℕ) → ((append_at s x msecs).stored x).status ≡ (s.stored x).status
  unfolding append_at
  append_at-status s x msecs = ap (λ w. w.status) (assign_self s.stored x _)

  -- An event with a timeout that is not negative, which is in no bucket of a wheel where every event is in
  -- one place, knows its bucket and has rounds left, is put into the wheel by evtimer_append() and is due
  -- with the call of evtimer_dispatch() whose number is the number of whole steps of the
  -- timeout, which is raised to the precision (one round more for whole rounds and a part of a step). Each
  -- call up to this one returns. After this call the event is active with EV_TIMEOUT; after
  -- fewer calls it is still in its bucket, once, and its status is what it was before
  -- evtimer_append().
  pub append-fires :
      (s : EventSet B) (x msecs k : ℕ)
      → IsTimed s
      → ((i : ℕ) → occurs x (bucket s.core_timer i) ≡ 0)
      → (s.stored x).timer_msecs ≡ pos msecs
      → msecs < 2 ^ 31
      → let t = s.core_timer in
        let tv = at_least t msecs in
        k ≤ tv / t.max_precision + late t tv
        → let t = s.core_timer in
          let tv = at_least t msecs in
          (s' : EventSet B) × (dispatch_times k (append s x).1 ≡ some s')
          × IsTimed s'
          × IsAfter k (tv / t.max_precision + late t tv) s s' (place t tv) x
  append-fires s x msecs k v new timed small within =
      let t = s.core_timer in
      let tv = at_least t msecs in
      let i = place t tv in
      let (_, wheel, at, left) = append-due s x msecs v.wheel timed small in
      let e = ap (λ r. r.1) (append-timed s x msecs timed) in
      let v' : IsTimed (append s x).1 =
        subst IsTimed (sym e)
          (appended-IsTimed s x msecs v (subst (λ s₁. IsWheel s₁.core_timer) e wheel) new) in
      let there : 0 < occurs x (bucket (append s x).1.core_timer i) =
        omega (arith, ap (occurs x) at, occurs-append x (bucket t i) (x ∷ []), occurs_self x []) in
      let raised : t.max_precision ≤ tv = ground arith in
      let some_steps : 0 < tv / t.max_precision =
        (le-div_iff_mul-le v.wheel.precise).1 (omega (arith, raised)) in
      let (n, positive) =
        positive_suc (tv / t.max_precision + late t tv) (omega (arith, some_steps)) in
      let (s', runs, v'', after) =
        fires k n (append s x).1 i x v' there (left ∙ positive) (omega (arith, within, positive)) in
      let quiet : ((append s x).1.stored x).status ≡ (s.stored x).status =
        ap (λ s₁. (s₁.stored x).status) e ∙ append_at-status s x msecs in
      (
        s',
        runs,
        v'',
        elim after [
          | inl (all, f) ↦ inl (all ∙ sym positive, f)
          | inr (fewer, waits, still) ↦ inr (omega (arith, fewer, positive), waits, still ∙ quiet)
        ],
      )

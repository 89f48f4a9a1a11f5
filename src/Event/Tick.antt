-- ===== src/Event/Tick.antt =====
-- One round of the loop of evtimer_dispatch() (src/timer.c).
use libevlite.Base.{
  ℕ, suc, ◌+◌, ◌<◌, ◌≡◌, ◌≢◌, refl, sym, ap, ◌∙◌, subst, Bool, true, false, ◌||◌, List, [], ◌∷◌,
  ◌++◌, set, leb, ◌==◌, if◌then◌else◌, arith, assign_self, assign_ne, Bool-cases, inl, inr,
}
use libevlite.Base.Int.{ℤ, pos, negsuc}
use libevlite.Event.Defs.{
  Event, EventSet, mask_or, only_timeout, decrement, unlink, inserted_last, with_event,
}
use libevlite.Event.Wheel.{
  bucket, remove, remove_index, remove_at, event_active, clear_timer, tick_step, tick,
}

pub unlink_head : (e : ℕ) (xs : List ℕ) → unlink e (e ∷ xs) ≡ xs
unfolding unlink
unlink_head e xs = let self : (e == e) ≡ true = ground arith in rw self refl

or_true : (b : Bool) → (b || true) ≡ true
or_true true = refl
or_true false = refl

-- The event is out of the wheel and active.
pub record HasFired (ev : Event) : Type 0 where
  pub active : ev.status.active ≡ true
  pub no_timer : ev.status.timer ≡ false
  pub no_index : ev.timer_index ≡ negsuc 0
  pub timeout : ev.results.ev_timeout ≡ true

module _ {B : Type 0} where
  -- The bucket of `e` becomes `b`, and no other event changes.
  pub record Turned (s : EventSet B) (i e : ℕ) (b : List ℕ) (s' : EventSet B) : Type 0 where
    pub refer : s'.core_timer.dispatch_refer ≡ s.core_timer.dispatch_refer
    pub count : s'.core_timer.bucket_count ≡ s.core_timer.bucket_count
    pub precision : s'.core_timer.max_precision ≡ s.core_timer.max_precision
    pub buckets : s'.core_timer.bucket_array ≡ set s.core_timer.bucket_array i b
    pub others : (x : ℕ) → e ≢ x → s'.stored x ≡ s.stored x

  -- What event_active() keeps.
  record Activated (s : EventSet B) (e : ℕ) (s' : EventSet B) : Type 0 where
    core : s'.core_timer ≡ s.core_timer
    others : (x : ℕ) → e ≢ x → s'.stored x ≡ s.stored x
    active : (s'.stored e).status.active ≡ true
    flag : (s'.stored e).status.timer ≡ (s.stored e).status.timer
    index : (s'.stored e).timer_index ≡ (s.stored e).timer_index
    timeout : (s'.stored e).results.ev_timeout ≡ true

  event_active-Activated :
      (s : EventSet B) (e : ℕ) → Activated s e (event_active s e only_timeout).1
  unfolding event_active
  event_active-Activated s e =
      let ev = s.stored e in
      let more : Event = record ev { results = mask_or ev.results only_timeout } in
      let fresh : Event = record ev {
        results = only_timeout;
        status = record ev.status { active = true };
      } in
      let choice : Bool → ℤ × EventSet B = λ c.
        if c
        then (pos 1, with_event s e more)
        else (pos 0, record (with_event s e fresh) { activelist = inserted_last e s.activelist }) in
      let Good : Bool → Type 0 = λ c. Activated s e (choice c).1 in
      elim (Bool-cases ev.status.active) [
        | inl was ↦ subst Good (sym was) (record {
          core = refl;
          others = λ x n. assign_ne s.stored e x more n;
          active = ap (λ v. v.status.active) (assign_self s.stored e more) ∙ was;
          flag = ap (λ v. v.status.timer) (assign_self s.stored e more);
          index = ap (λ v. v.timer_index) (assign_self s.stored e more);
          timeout =
              ap (λ v. v.results.ev_timeout) (assign_self s.stored e more)
              ∙ or_true ev.results.ev_timeout;
        })
        | inr not_yet ↦ subst Good (sym not_yet) (record {
          core = refl;
          others = λ x n. assign_ne s.stored e x fresh n;
          active = ap (λ v. v.status.active) (assign_self s.stored e fresh);
          flag = ap (λ v. v.status.timer) (assign_self s.stored e fresh);
          index = ap (λ v. v.timer_index) (assign_self s.stored e fresh);
          timeout = ap (λ v. v.results.ev_timeout) (assign_self s.stored e fresh);
        })
      ]

  -- The state of tick_step(), from the number of rounds.
  abbrev stepped : EventSet B → ℕ → ℤ → EventSet B
  stepped s e c = with_event s e (record (s.stored e) { timer_stepcnt = decrement c })

  -- An event with more than one round left goes to the end of its bucket with one round less.
  pub tick_requeues :
      (s : EventSet B) (i e n rc : ℕ) (rest : List ℕ)
      → (s.stored e).timer_stepcnt ≡ pos (suc (suc n))
      → bucket s.core_timer i ≡ e ∷ rest
      → let (s', rc') = tick i s e rc in
        (rc' ≡ rc)
        × Turned s i e (rest ++ e ∷ []) s'
        × (s'.stored e ≡ record (s.stored e) { timer_stepcnt = pos (suc n) })
  unfolding tick tick_step
  tick_requeues s i e n rc rest h at =
      let ev = record (s.stored e) { timer_stepcnt = pos (suc n) } in
      subst
        (λ c.
          let (s', rc') = tick_step i (stepped s e c) e rc (decrement c) in
          (rc' ≡ rc) × Turned s i e (rest ++ e ∷ []) s' × (s'.stored e ≡ ev))
        (sym h)
        (
          refl,
          record {
            refer = refl;
            count = refl;
            precision = refl;
            buckets =
                ap (λ b. set s.core_timer.bucket_array i (inserted_last e (unlink e b))) at
                ∙ ap (λ b. set s.core_timer.bucket_array i (inserted_last e b))
                    (unlink_head e rest);
            others = λ x ne. assign_ne s.stored e x ev ne;
          },
          assign_self s.stored e ev,
        )

  remove-indexed :
      (s : EventSet B) (e i : ℕ)
      → (s.stored e).timer_index ≡ pos i
      → i < s.core_timer.bucket_count
      → (remove s e).1 ≡ remove_at s e i
  unfolding remove remove_index
  remove-indexed s e i h lt =
      let choice : Bool → ℤ × EventSet B =
        λ c. if c then (negsuc 0, s) else (pos 0, remove_at s e i) in
      let inside : leb s.core_timer.bucket_count i ≡ false = ground arith in
      ap (λ z. (remove_index s e z).1) h ∙ ap (λ c. (choice c).1) inside

  -- An event in its last round leaves the wheel and becomes active.
  pub tick_fires :
      (s : EventSet B) (i e rc : ℕ) (rest : List ℕ)
      → (s.stored e).timer_stepcnt ≡ pos 1
      → (s.stored e).timer_index ≡ pos i
      → i < s.core_timer.bucket_count
      → bucket s.core_timer i ≡ e ∷ rest
      → let (s', rc') = tick i s e rc in
        (rc' ≡ rc + 1) × Turned s i e rest s' × HasFired (s'.stored e)
  unfolding tick tick_step remove_at
  tick_fires s i e rc rest h index lt at =
      let s₁ = stepped s e (pos 1) in
      let s₂ = remove_at s₁ e i in
      let s₃ = clear_timer s₂ e in
      let a = event_active-Activated s₃ e in
      let removed =
        remove-indexed s₁ e i
          (ap (λ v. v.timer_index)
              (assign_self s.stored e (record (s.stored e) { timer_stepcnt = pos 0 }))
            ∙ index)
          lt in
      let Good : EventSet B → Type 0 = λ r.
        let s' = (event_active (clear_timer r e) e only_timeout).1 in
        (rc + 1 ≡ rc + 1) × Turned s i e rest s' × HasFired (s'.stored e) in
      subst
        (λ c.
          let (s', rc') = tick_step i (stepped s e c) e rc (decrement c) in
          (rc' ≡ rc + 1) × Turned s i e rest s' × HasFired (s'.stored e))
        (sym h)
        (subst Good (sym removed) (
          refl,
          record {
            refer = ap (λ t. t.dispatch_refer) a.core;
            count = ap (λ t. t.bucket_count) a.core;
            precision = ap (λ t. t.max_precision) a.core;
            buckets =
                ap (λ t. t.bucket_array) a.core
                ∙ ap (λ b. set s.core_timer.bucket_array i (unlink e b)) at
                ∙ ap (set s.core_timer.bucket_array i) (unlink_head e rest);
            others = λ x ne.
                a.others x ne
                ∙ assign_ne s₂.stored e x _ ne
                ∙ assign_ne s₁.stored e x _ ne
                ∙ assign_ne s.stored e x _ ne;
          },
          record {
            active = a.active;
            no_timer = a.flag ∙ ap (λ v. v.status.timer) (assign_self s₂.stored e _);
            no_index =
                a.index
                ∙ ap (λ v. v.timer_index) (assign_self s₂.stored e _)
                ∙ ap (λ v. v.timer_index) (assign_self s₁.stored e _);
            timeout = a.timeout;
          },
        ))

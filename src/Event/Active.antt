-- ===== src/Event/Active.antt =====
-- The loop of evsets_process_active() (src/event.c).
use mathlib.Core.List.{Sublistᴰ}
use mathlib.Core.List.Sublistᴰ
use mathlib.Core.List.Sublistᴰ.{slnil, cons, cons-cons}
use libevlite.Base.{
  ℕ, zero, suc, ◌+◌, ◌≤◌, ◌<◌, ◌==◌, map, ℕ_discrete, ◌≡◌, ◌≢◌, refl, sym, ap, ◌∙◌, subst, Bool,
  true, false, Option, none, some, List, [], ◌∷◌, length, if◌then◌else◌, arith, Bool-cases, inl,
  inr, occurs,
}
use libevlite.Base.Int.{ℤ, pos, ltb_ℤ}
use libevlite.Event.Defs.{EventSet, unlink}
use libevlite.Event.Sets.{
  Kind, kind_inserted, kind_active, kind_timer, queue_insert, unlink_from, queue_remove, drop_if,
  del_io, evsets_del,
}
use libevlite.Event.Once.{bit}
use libevlite.Event.Linked.{IsLinked, queue_insert-IsLinked, queue_remove-IsLinked}
use libevlite.Event.SetLaws.{dropped_other, queue_remove_on, evsets_del_known, evsets_del-IsLinked}
use libevlite.Event.Callbacks.{SetCall, subject, run_calls, run_calls_lem, once_here}
use libevlite.Event.Loop.{take_active, process_active}
use libevlite.Event.Quiet.{IsReady, IsQuiet, remove-IsQuiet, insert-IsQuiet, set_flag_foreign}
use libevlite.Event.Dispatch.{occurs_self}
use libevlite.Event.Tick.{unlink_head}

active_is_on : (e : ℕ) (es : List ℕ) (b : Bool) → occurs e (e ∷ es) ≡ bit b → b ≡ true
active_is_on e es true h = refl
active_is_on e es false h = absurd (omega (arith, h, occurs_self e es))

length-Sublist : {xs ys : List ℕ} → Sublistᴰ xs ys → length xs ≤ length ys
length-Sublist slnil = omega arith
length-Sublist (cons d) = omega (arith, length-Sublist d)
length-Sublist (cons-cons e d) = omega (arith, length-Sublist d)

occurs-Sublist : (x : ℕ) {xs ys : List ℕ} → Sublistᴰ xs ys → occurs x xs ≤ occurs x ys
occurs-Sublist x slnil = omega arith
occurs-Sublist x (cons d) = omega (arith, occurs-Sublist x d)
occurs-Sublist x (cons-cons e d) =
    omega (arith, occurs-Sublist x d, ap {B = ℕ} (λ a. if a == x then 1 else 0) e)

bit-le : (b : Bool) → bit b ≤ 1
bit-le true = omega arith
bit-le false = omega arith

module _ {B : Type 0} where
  -- The first active event is taken out of the list.
  record IsTaken (s : EventSet B) (es : List ℕ) (s' : EventSet B) : Type 0 where
    actives : s'.activelist ≡ es
    foreign : (x : ℕ) → (s'.stored x).status.other ≡ (s.stored x).status.other

  IsQuiet-IsTaken :
      (s s' s'' : EventSet B) (es : List ℕ) → IsTaken s es s' → IsQuiet s' s'' → IsTaken s es s''
  IsQuiet-IsTaken s s' s'' es a b = record {
    actives = b.actives ∙ a.actives;
    foreign = λ x. b.foreign x ∙ a.foreign x;
  }

  remove-IsTaken :
      (s : EventSet B) (e : ℕ) (es : List ℕ)
      → s.activelist ≡ e ∷ es
      → (s.stored e).status.active ≡ true
      → IsTaken s es (queue_remove kind_active s e).1
  unfolding unlink_from
  remove-IsTaken s e es at on =
      subst (λ r. IsTaken s es r.1) (sym (queue_remove_on kind_active s e on))
        (record {
          actives = ap (unlink e) at ∙ unlink_head e es;
          foreign = set_flag_foreign kind_active false s e;
        })

  drop-IsQuiet :
      (b : Bool) (k : Kind) (s : EventSet B) (e : ℕ) → kind_active ≢ k → IsQuiet s (drop_if b k s e)
  drop-IsQuiet true k s e ne = remove-IsQuiet k s e ne
  drop-IsQuiet false k s e ne = record { actives = refl; foreign = λ x. refl }

  del_io-IsQuiet :
      (op_del : B → ℕ → ℤ × B) (b : Bool) (s : EventSet B) (e : ℕ)
      → IsQuiet s (del_io op_del b s e).1
  unfolding del_io
  del_io-IsQuiet op_del true s e =
      let q = remove-IsQuiet kind_inserted s e (λ h. cc) in
      record { actives = q.actives; foreign = q.foreign }
  del_io-IsQuiet op_del false s e = record { actives = refl; foreign = λ x. refl }

  del-IsTaken :
      (op_del : B → ℕ → ℤ × B) (s : EventSet B) (e : ℕ) (es : List ℕ)
      → IsReady s
      → s.activelist ≡ e ∷ es
      → (s.stored e).status.active ≡ true
      → IsTaken s es (evsets_del op_del s e).1
  del-IsTaken op_del s e es v at on =
      let b₁ = (s.stored e).status.timer in
      let s₁ = drop_if b₁ kind_timer s e in
      let q = drop-IsQuiet b₁ kind_timer s e (λ h. cc) in
      let on₁ : (s₁.stored e).status.active ≡ true =
        dropped_other kind_active b₁ kind_timer s e refl (λ h. cc) ∙ on in
      let t : IsTaken s₁ es (drop_if (s₁.stored e).status.active kind_active s₁ e) =
        subst (λ c. IsTaken s₁ es (drop_if c kind_active s₁ e)) (sym on₁)
          (remove-IsTaken s₁ e es (q.actives ∙ at) on₁) in
      let s₂ = drop_if (s₁.stored e).status.active kind_active s₁ e in
      let t₂ : IsTaken s es s₂ = record {
        actives = t.actives;
        foreign = λ x. t.foreign x ∙ q.foreign x;
      } in
      subst (λ (r : ℤ × EventSet B). IsTaken s es r.1)
        (sym (evsets_del_known op_del s e (v.known e)))
        (IsQuiet-IsTaken s s₂ (del_io op_del (s₂.stored e).status.inserted s₂ e).1 es t₂
          (del_io-IsQuiet op_del (s₂.stored e).status.inserted s₂ e))

  take_active-IsReady :
      (op_del : B → ℕ → ℤ × B) (s : EventSet B) (e : ℕ) (es : List ℕ)
      → IsReady s
      → s.activelist ≡ e ∷ es
      → IsReady (take_active op_del s e) × ((take_active op_del s e).activelist ≡ es)
  unfolding take_active
  take_active-IsReady op_del s e es v at = elim (Bool-cases (s.stored e).events.ev_persist) [
    | inr once ↦ subst Good (sym (ap (λ c. if c then again else (evsets_del op_del s e).1) once)) (
        ready (evsets_del op_del s e).1 (evsets_del-IsLinked op_del s e v.linked (v.known e)).0
          (del-IsTaken op_del s e es v at on))
    | inl persists ↦ elim (Bool-cases (ltb_ℤ (s₁.stored e).timer_msecs (pos 0))) [
      | inl untimed ↦
          subst Good
            (sym (
              ap (λ c. if c then again else (evsets_del op_del s e).1) persists
              ∙ ap (λ c. if c then s₁ else (queue_insert kind_timer s₂ e).1) untimed))
            (ready s₁ linked taken)
      | inr timed ↦
          subst Good
            (sym (
              ap (λ c. if c then again else (evsets_del op_del s e).1) persists
              ∙ ap (λ c. if c then s₁ else (queue_insert kind_timer s₂ e).1) timed))
            (ready (queue_insert kind_timer s₂ e).1 (queue_insert-IsLinked kind_timer s₂ e linked₂)
              (IsQuiet-IsTaken s s₂ (queue_insert kind_timer s₂ e).1 es taken₂
                (insert-IsQuiet s₂ e)))
    ]
  ]
    where
      s₁ : EventSet B
      s₁ = (queue_remove kind_active s e).1

      s₂ : EventSet B
      s₂ = if (s₁.stored e).results.ev_timeout then s₁ else (queue_remove kind_timer s₁ e).1

      again : EventSet B
      again =
          if ltb_ℤ (s₁.stored e).timer_msecs (pos 0) then s₁ else (queue_insert kind_timer s₂ e).1

      Good : EventSet B → Type 0
      Good s' = IsReady s' × (s'.activelist ≡ es)

      on : (s.stored e).status.active ≡ true
      on = active_is_on e es (s.stored e).status.active (sym (ap (occurs e) at) ∙ v.linked.active e)

      ready : (s' : EventSet B) → IsLinked s' → IsTaken s es s' → Good s'
      ready s' l t = (record { linked = l; known = λ x. t.foreign x ∙ v.known x }, t.actives)

      linked : IsLinked s₁
      linked = queue_remove-IsLinked kind_active s e v.linked

      taken : IsTaken s es s₁
      taken = remove-IsTaken s e es at on

      linked₂ : IsLinked s₂
      linked₂ = by (s₁.stored e).results.ev_timeout
        where
          by : (c : Bool) → IsLinked (if c then s₁ else (queue_remove kind_timer s₁ e).1)
          by true = linked
          by false = queue_remove-IsLinked kind_timer s₁ e linked

      taken₂ : IsTaken s es s₂
      taken₂ = by (s₁.stored e).results.ev_timeout
        where
          by : (c : Bool) → IsTaken s es (if c then s₁ else (queue_remove kind_timer s₁ e).1)
          by true = taken
          by false =
              IsQuiet-IsTaken s s₁ (queue_remove kind_timer s₁ e).1 es taken
                (remove-IsQuiet kind_timer s₁ e (λ h. cc))

  module _ (op_add : B → ℕ → ℤ × B) (op_del : B → ℕ → ℤ × B)
      (calls_of : EventSet B → ℕ → List SetCall) where
    -- The callback of an event makes the calls that it chooses by what it finds.
    abbrev pub callback : EventSet B → ℕ → EventSet B
    callback s e = run_calls op_add op_del (calls_of s e) s

    called :
        (fuel : ℕ) (es : List ℕ) (s : EventSet B) (rc x : ℕ)
        → ((s₀ : EventSet B) (e : ℕ) → e ≢ x → occurs x (map subject (calls_of s₀ e)) ≡ 0)
        → IsReady s
        → s.activelist ≡ es
        → length es < fuel
        → (s' : EventSet B) × (called_back : List ℕ) × (process_active op_del callback fuel s rc
            ≡ some (rc + length called_back, s', called_back))
          × IsReady s'
          × (s'.activelist ≡ [])
          × Sublistᴰ called_back es
          × (occurs x called_back ≡ occurs x es)
    unfolding process_active
    called zero es s rc x free v at enough = absurd (omega (arith, enough))
    called (suc fuel) [] s rc x free v at enough =
        (s, [], ap loop at ∙ ap (λ n. some (n, s, [])) (omega arith), v, at, slnil, refl)
      where
        loop : List ℕ → Option (ℕ × EventSet B × List ℕ)
        loop l = elim l [
          | [] ↦ some (rc, s, [])
          | y ∷ ys ↦
              elim (process_active op_del callback fuel (callback (take_active op_del s y) y)
                (rc + 1)) [ none ↦ none | some (n, s', calls) ↦ some (n, s', y ∷ calls) ]
        ]
    called (suc fuel) (e ∷ es) s rc x free v at enough =
        let s₁ = take_active op_del s e in
        let (v₁, left) = take_active-IsReady op_del s e es v at in
        let s₂ = callback s₁ e in
        let (v₂, thin, others) = run_calls_lem op_add op_del (calls_of s₁ e) s₁ x v₁ in
        let thin' : Sublistᴰ s₂.activelist es = subst (Sublistᴰ s₂.activelist) left thin in
        let (s', called_back, runs, v', done, part, counts) =
          called fuel s₂.activelist s₂ (rc + 1) x free v₂ refl
            (omega (arith, enough, length-Sublist thin')) in
        let all : Sublistᴰ called_back es = Sublistᴰ.trans part thin' in
        (
          s',
          e ∷ called_back,
          ap loop at ∙ ap logged runs ∙ ap (λ n. some (n, s', e ∷ called_back)) (omega arith),
          v',
          done,
          cons-cons refl all,
          ap (λ n. (if e == x then 1 else 0) + n)
              (elim (ℕ_discrete e x) [
                | yes same ↦
                    let once : occurs x (e ∷ es) ≤ 1 = omega (
                      arith,
                      ap (occurs x) at,
                      v.linked.active x,
                      bit-le (s.stored x).status.active,
                    ) in
                    omega (arith, once, once_here e x same, occurs-Sublist x all)
                | no ne ↦ counts ∙ others (free s₁ e ne) ∙ ap (occurs x) left
              ]),
        )
      where
        logged : Option (ℕ × EventSet B × List ℕ) → Option (ℕ × EventSet B × List ℕ)
        logged o = elim o [ none ↦ none | some (n, s', calls) ↦ some (n, s', e ∷ calls) ]

        loop : List ℕ → Option (ℕ × EventSet B × List ℕ)
        loop l = elim l [
          | [] ↦ some (rc, s, [])
          | y ∷ ys ↦
              elim (process_active op_del callback fuel (callback (take_active op_del s y) y)
                (rc + 1)) [ none ↦ none | some (n, s', calls) ↦ some (n, s', y ∷ calls) ]
        ]

    -- evsets_process_active() ends when the callbacks call event_set(), evsets_add() and evsets_del() for
    -- any events, in any number and order, by what they find in the event set: it takes at most one round for
    -- every event that was active. It calls active events, in the order of the list and each at
    -- most once, and returns their number; no event is active afterwards, and the flags and the
    -- lists agree again. An event that the callbacks of the others do not name is called exactly
    -- if it was active. No event has a foreign bit in its status, and the flags and the lists
    -- agree at the start.
    pub process_active_lem :
        (s : EventSet B) (x : ℕ)
        → ((s₀ : EventSet B) (e : ℕ) → e ≢ x → occurs x (map subject (calls_of s₀ e)) ≡ 0)
        → IsReady s
        → (s' : EventSet B) × (called_back : List ℕ) × (process_active op_del callback
              (suc (length s.activelist))
              s
              0
            ≡ some (length called_back, s', called_back))
          × IsReady s'
          × (s'.activelist ≡ [])
          × Sublistᴰ called_back s.activelist
          × (occurs x called_back ≡ occurs x s.activelist)
    process_active_lem s x free v =
        let (s', called_back, runs, v', done, part, counts) =
          called (suc (length s.activelist)) s.activelist s 0 x free v refl (omega arith) in
        (
          s',
          called_back,
          runs ∙ ap (λ n. some (n, s', called_back)) (omega arith),
          v',
          done,
          part,
          counts,
        )

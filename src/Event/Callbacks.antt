-- ===== src/Event/Callbacks.antt =====
-- What a callback of an event does to an event set (src/event.c): calls of event_set(), evsets_add() and
-- evsets_del().
use mathlib.Core.List.{Sublistᴰ}
use mathlib.Core.List.Sublistᴰ
use mathlib.Core.List.Sublistᴰ.{slnil, cons, cons-cons}
use libevlite.Base.{
  ℕ, ◌+◌, ◌≡◌, ◌≢◌, refl, sym, ap, ◌∙◌, subst, Bool, true, false, ◌&&◌, ◌||◌, not, ◌==◌, List, [],
  ◌∷◌, map, if◌then◌else◌, arith, Bool-cases, inl, inr, occurs, ℕ_discrete,
}
use libevlite.Base.Int.{ℤ, pos, negsuc}
use libevlite.Event.Defs.{Mask, EventSet, unlink, with_event}
use libevlite.Event.Sets.{
  kind_inserted, kind_active, kind_timer, queue_insert, unlink_from, queue_remove, drop_if, add_io,
  add_timer, add_timeout, evsets_add, evsets_del, del_io, is_zero, is_positive,
}
use libevlite.Event.Linked.{IsLinked, Untouched, keep-IsLinked, same_status}
use libevlite.Event.SetLaws.{evsets_del_known, evsets_add-IsLinked, evsets_del-IsLinked}
use libevlite.Event.Loop.{event_set}
use libevlite.Event.Quiet.{
  IsReady, IsQuiet, remove-IsQuiet, insert-IsQuiet, set_flag_foreign, Untouched-IsQuiet,
}

pub same_list : (xs : List ℕ) → Sublistᴰ xs xs
same_list [] = slnil
same_list (x ∷ xs) = cons-cons refl (same_list xs)

unlink-Sublist : (e : ℕ) (xs : List ℕ) → Sublistᴰ (unlink e xs) xs
unfolding unlink
unlink-Sublist e [] = slnil
unlink-Sublist e (x ∷ xs) = elim (Bool-cases (x == e)) [
  | inl same ↦ rw same (cons (same_list xs))
  | inr other ↦ rw other (cons-cons refl (unlink-Sublist e xs))
]

occurs-unlink_other : (e x : ℕ) (xs : List ℕ) → e ≢ x → occurs x (unlink e xs) ≡ occurs x xs
unfolding unlink
occurs-unlink_other e x [] ne = refl
occurs-unlink_other e x (y ∷ ys) ne = elim (ℕ_discrete y e) [
  | yes same ↦
      let a : (y == e) ≡ true = ground arith in
      let b : (y == x) ≡ false = ground arith in rw (a, b) (omega arith)
  | no away ↦
      let a : (y == e) ≡ false = ground arith in
      rw a (ap (λ n. (if y == x then 1 else 0) + n) (occurs-unlink_other e x ys ne))
]

module _ {B : Type 0} where
  -- The list of active events loses at most event `e`, and no event gets a foreign bit.
  pub record IsThinned (e : ℕ) (s s' : EventSet B) : Type 0 where
    pub thin : Sublistᴰ s'.activelist s.activelist
    pub others : (x : ℕ) → e ≢ x → occurs x s'.activelist ≡ occurs x s.activelist
    pub foreign : (x : ℕ) → (s'.stored x).status.other ≡ (s.stored x).status.other

  IsThinned-then :
      (e : ℕ) (s s' s'' : EventSet B) → IsThinned e s s' → IsQuiet s' s'' → IsThinned e s s''
  IsThinned-then e s s' s'' a b = record {
    thin = subst (λ xs. Sublistᴰ xs s.activelist) (sym b.actives) a.thin;
    others = λ x ne. ap (occurs x) b.actives ∙ a.others x ne;
    foreign = λ x. b.foreign x ∙ a.foreign x;
  }

  Quiet-then :
      (e : ℕ) (s s' s'' : EventSet B) → IsQuiet s s' → IsThinned e s' s'' → IsThinned e s s''
  Quiet-then e s s' s'' a b = record {
    thin = subst (Sublistᴰ s''.activelist) a.actives b.thin;
    others = λ x ne. b.others x ne ∙ ap (occurs x) a.actives;
    foreign = λ x. b.foreign x ∙ a.foreign x;
  }

  still : (s : EventSet B) → IsQuiet s s
  still s = record { actives = refl; foreign = λ x. refl }

  unchanged : (e : ℕ) (s : EventSet B) → IsThinned e s s
  unchanged e s = record {
    thin = same_list s.activelist;
    others = λ x ne. refl;
    foreign = λ x. refl;
  }

  drop_timer-IsQuiet : (b : Bool) (s : EventSet B) (e : ℕ) → IsQuiet s (drop_if b kind_timer s e)
  drop_timer-IsQuiet true s e = remove-IsQuiet kind_timer s e (λ h. cc)
  drop_timer-IsQuiet false s e = still s

  drop_active-IsThinned :
      (b : Bool) (s : EventSet B) (e : ℕ) → IsThinned e s (drop_if b kind_active s e)
  unfolding queue_remove unlink_from
  drop_active-IsThinned false s e = unchanged e s
  drop_active-IsThinned true s e = elim (Bool-cases (s.stored e).status.active) [
    | inl on ↦ rw on (record {
      thin = unlink-Sublist e s.activelist;
      others = λ x ne. occurs-unlink_other e x s.activelist ne;
      foreign = set_flag_foreign kind_active false s e;
    })
    | inr off ↦ rw off (unchanged e s)
  ]

  del_io-IsQuiet :
      (op_del : B → ℕ → ℤ × B) (b : Bool) (s : EventSet B) (e : ℕ)
      → IsQuiet s (del_io op_del b s e).1
  unfolding del_io
  del_io-IsQuiet op_del true s e =
      let q = remove-IsQuiet kind_inserted s e (λ h. cc) in
      record { actives = q.actives; foreign = q.foreign }
  del_io-IsQuiet op_del false s e = still s

  evsets_del-IsThinned :
      (op_del : B → ℕ → ℤ × B) (s : EventSet B) (e : ℕ)
      → (s.stored e).status.other ≡ false
      → IsThinned e s (evsets_del op_del s e).1
  evsets_del-IsThinned op_del s e known =
      let b₁ = (s.stored e).status.timer in
      let s₁ = drop_if b₁ kind_timer s e in
      let b₂ = (s₁.stored e).status.active in
      let s₂ = drop_if b₂ kind_active s₁ e in
      let b₃ = (s₂.stored e).status.inserted in
      subst (λ (r : ℤ × EventSet B). IsThinned e s r.1) (sym (evsets_del_known op_del s e known))
        (IsThinned-then e s s₂ (del_io op_del b₃ s₂ e).1
          (Quiet-then e s s₁ s₂ (drop_timer-IsQuiet b₁ s e) (drop_active-IsThinned b₂ s₁ e))
          (del_io-IsQuiet op_del b₃ s₂ e))

  insert_inserted-IsQuiet : (s : EventSet B) (e : ℕ) → IsQuiet s (queue_insert kind_inserted s e).1
  unfolding queue_insert
  insert_inserted-IsQuiet s e = elim (Bool-cases (s.stored e).status.inserted) [
    | inl on ↦ rw on (still s)
    | inr off ↦
        rw off (record { actives = refl; foreign = set_flag_foreign kind_inserted true s e })
  ]

  add_io-IsQuiet :
      (op_add : B → ℕ → ℤ × B) (s : EventSet B) (e : ℕ) → IsQuiet s (add_io op_add s e).1
  unfolding add_io
  add_io-IsQuiet op_add s e =
      let s' : EventSet B = record s { evsets = (op_add s.evsets e).1 } in
      let wanted =
        is_positive (s.stored e).fd
        && ((s.stored e).events.ev_read || (s.stored e).events.ev_write)
        && not ((s.stored e).status.active || (s.stored e).status.inserted) in
      elim (Bool-cases wanted) [
        | inl yes_io ↦ elim (Bool-cases (is_zero (op_add s.evsets e).0)) [
          | inl good ↦
              let q = insert_inserted-IsQuiet s' e in
              rw (yes_io, good) (record { actives = q.actives; foreign = q.foreign })
          | inr bad ↦ rw (yes_io, bad) (record { actives = refl; foreign = λ x. refl })
        ]
        | inr no_io ↦ rw no_io (still s)
      ]

  add_timer-IsThinned : (s : EventSet B) (e tv : ℕ) → IsThinned e s (add_timer s e tv)
  unfolding add_timer
  add_timer-IsThinned s e tv =
      let b₁ = (s.stored e).status.timer in
      let s₁ = drop_if b₁ kind_timer s e in
      let b₂ = (s₁.stored e).results.ev_timeout && (s₁.stored e).status.active in
      let s₂ = drop_if b₂ kind_active s₁ e in
      let s₃ = with_event s₂ e (record (s₂.stored e) { timer_msecs = pos tv }) in
      let set_it : IsQuiet s₂ s₃ = record {
        actives = refl;
        foreign = λ x. ap (λ st. st.other) (same_status s₂ e _ refl x);
      } in
      IsThinned-then e s s₃ (queue_insert kind_timer s₃ e).1
        (IsThinned-then e s s₂ s₃
          (Quiet-then e s s₁ s₂ (drop_timer-IsQuiet b₁ s e) (drop_active-IsThinned b₂ s₁ e)) set_it)
        (insert-IsQuiet s₃ e)

  add_timeout-IsThinned :
      (r : ℕ × EventSet B) (e : ℕ) (tv : ℤ) → IsThinned e r.1 (add_timeout r e tv).1
  unfolding add_timeout
  add_timeout-IsThinned (rc, s) e (pos tv) = add_timer-IsThinned s e tv
  add_timeout-IsThinned (rc, s) e (negsuc n) = unchanged e s

  if_IsThinned :
      (b : Bool) (e : ℕ) (s : EventSet B) (r r' : ℤ × EventSet B)
      → IsThinned e s r.1
      → IsThinned e s r'.1
      → IsThinned e s (if b then r else r').1
  if_IsThinned true e s r r' v v' = v
  if_IsThinned false e s r r' v v' = v'

  evsets_add-IsThinned :
      (op_add : B → ℕ → ℤ × B) (s : EventSet B) (e : ℕ) (tv : ℤ)
      → IsThinned e s (evsets_add op_add s e tv).1
  unfolding evsets_add
  evsets_add-IsThinned op_add s e tv =
      let r = add_io op_add s e in
      if_IsThinned (s.stored e).status.other e s (negsuc 0, s) (add_timeout r e tv) (unchanged e s)
        (Quiet-then e s r.1 (add_timeout r e tv).1 (add_io-IsQuiet op_add s e)
          (add_timeout-IsThinned r e tv))

-- What a callback calls: event_set(), evsets_add(), evsets_del().
pub data SetCall : Type 0 where
  sets : ℕ → ℤ → Mask → SetCall
  adds : ℕ → ℤ → SetCall
  dels : ℕ → SetCall

-- The event of a call.
abbrev pub subject : SetCall → ℕ
subject (sets e fd events) = e
subject (adds e tv) = e
subject (dels e) = e

pub once_here : (e x : ℕ) → e ≡ x → ◌≡◌ {A = ℕ} (if e == x then 1 else 0) 1
once_here e x same =
    let a : (e == x) ≡ true = ground arith in ap {B = ℕ} (λ (b : Bool). if b then 1 else 0) a

module _ {B : Type 0} (op_add : B → ℕ → ℤ × B) (op_del : B → ℕ → ℤ × B) where
  abbrev pub run_call : SetCall → EventSet B → EventSet B
  run_call (sets e fd events) s = with_event s e (event_set (s.stored e) fd events)
  run_call (adds e tv) s = (evsets_add op_add s e tv).1
  run_call (dels e) s = (evsets_del op_del s e).1

  abbrev pub run_calls : List SetCall → EventSet B → EventSet B
  run_calls [] s = s
  run_calls (c ∷ cs) s = run_calls cs (run_call c s)

  set_it-Untouched :
      (s : EventSet B) (e : ℕ) (fd : ℤ) (events : Mask)
      → Untouched s (with_event s e (event_set (s.stored e) fd events))
  unfolding event_set
  set_it-Untouched s e fd events = record {
    actives = refl;
    inserts = refl;
    flags = same_status s e _ refl;
  }

  run_call-IsThinned :
      (c : SetCall) (s : EventSet B) → IsReady s → IsThinned (subject c) s (run_call c s)
  run_call-IsThinned (sets e fd events) s v =
      let s' = with_event s e (event_set (s.stored e) fd events) in
      Quiet-then e s s' s' (Untouched-IsQuiet s s' (set_it-Untouched s e fd events))
        (unchanged e s')
  run_call-IsThinned (adds e tv) s v = evsets_add-IsThinned op_add s e tv
  run_call-IsThinned (dels e) s v = evsets_del-IsThinned op_del s e (v.known e)

  run_call-IsLinked : (c : SetCall) (s : EventSet B) → IsReady s → IsLinked (run_call c s)
  run_call-IsLinked (sets e fd events) s v =
      keep-IsLinked s (with_event s e (event_set (s.stored e) fd events))
        (set_it-Untouched s e fd events) v.linked
  run_call-IsLinked (adds e tv) s v = evsets_add-IsLinked op_add s e tv v.linked
  run_call-IsLinked (dels e) s v = (evsets_del-IsLinked op_del s e v.linked (v.known e)).0

  run_call-IsReady : (c : SetCall) (s : EventSet B) → IsReady s → IsReady (run_call c s)
  run_call-IsReady c s v = record {
    linked = run_call-IsLinked c s v;
    known = λ x. (run_call-IsThinned c s v).foreign x ∙ v.known x;
  }

  -- Calls of a callback make no event active; those that they do not name stay as they are.
  pub run_calls_lem :
      (cs : List SetCall) (s : EventSet B) (x : ℕ)
      → IsReady s
      → IsReady (run_calls cs s)
        × Sublistᴰ (run_calls cs s).activelist s.activelist
        × (occurs x (map subject cs) ≡ 0
            → occurs x (run_calls cs s).activelist ≡ occurs x s.activelist)
  run_calls_lem [] s x v = (v, same_list s.activelist, λ h. refl)
  run_calls_lem (c ∷ cs) s x v =
      let q = run_call-IsThinned c s v in
      let (v', thin, others) = run_calls_lem cs (run_call c s) x (run_call-IsReady c s v) in
      (
        v',
        Sublistᴰ.trans thin q.thin,
        λ h.
            others (omega (arith, h))
            ∙ q.others x (λ same. absurd (omega (arith, h, once_here (subject c) x same))),
      )

-- ===== src/Event/SetLaws.antt =====
-- evsets_add() and evsets_del() of src/event.c, on the flags and the lists of an event set.
use libevlite.Base.{
  ℕ, ◌≡◌, ◌≢◌, refl, sym, ap, ◌∙◌, Bool, true, false, ◌&&◌, ◌||◌, not, ◌==◌, if◌then◌else◌, arith,
  occurs, Bool-cases, inl, inr, subst,
}
use libevlite.Base.Int.{ℤ, pos, negsuc}
use libevlite.Event.Defs.{EventSet, with_event}
use libevlite.Event.Sets.{
  Kind, kind_inserted, kind_active, kind_timer, flag, set_flag, unlink_from, queue_remove, drop_if,
  add_io, add_timer, add_timeout, evsets_add, evsets_del, del_io, is_zero, is_positive,
}
use libevlite.Event.Once.{bit}
use libevlite.Event.Linked.{
  IsLinked, keep-IsLinked, same_status, flag_self, flag_other, remove-Untouched,
  queue_insert-IsLinked, queue_remove-IsLinked,
}

module _ {B : Type 0} where
  pub drop_if-IsLinked :
      (b : Bool) (k : Kind) (s : EventSet B) (e : ℕ) → IsLinked s → IsLinked (drop_if b k s e)
  drop_if-IsLinked true k s e v = queue_remove-IsLinked k s e v
  drop_if-IsLinked false k s e v = v

  pub evsets-IsLinked : (s : EventSet B) (b : B) → IsLinked s → IsLinked (record s { evsets = b })
  evsets-IsLinked s b v = record { active = v.active; inserted = v.inserted }

  if-IsLinked :
      (b : Bool) (r r' : ℤ × EventSet B)
      → IsLinked r.1
      → IsLinked r'.1
      → IsLinked (if b then r else r').1
  if-IsLinked true r r' v v' = v
  if-IsLinked false r r' v v' = v'

  add_io-IsLinked :
      (op_add : B → ℕ → ℤ × B) (s : EventSet B) (e : ℕ)
      → IsLinked s
      → IsLinked (add_io op_add s e).1
  unfolding add_io
  add_io-IsLinked op_add s e v =
      let s' : EventSet B = record s { evsets = (op_add s.evsets e).1 } in
      let v' = evsets-IsLinked s (op_add s.evsets e).1 v in
      let wanted =
        is_positive (s.stored e).fd
        && ((s.stored e).events.ev_read || (s.stored e).events.ev_write)
        && not ((s.stored e).status.active || (s.stored e).status.inserted) in
      elim (Bool-cases wanted) [
        | inl yes_io ↦ elim (Bool-cases (is_zero (op_add s.evsets e).0)) [
          | inl good ↦ rw (yes_io, good) (queue_insert-IsLinked kind_inserted s' e v')
          | inr bad ↦ rw (yes_io, bad) v'
        ]
        | inr no_io ↦ rw no_io v
      ]

  add_timer-IsLinked : (s : EventSet B) (e tv : ℕ) → IsLinked s → IsLinked (add_timer s e tv)
  unfolding add_timer
  add_timer-IsLinked s e tv v =
      let s₁ = drop_if (s.stored e).status.timer kind_timer s e in
      let b₂ = (s₁.stored e).results.ev_timeout && (s₁.stored e).status.active in
      let s₂ = drop_if b₂ kind_active s₁ e in
      let v₂ =
        drop_if-IsLinked b₂ kind_active s₁ e
          (drop_if-IsLinked (s.stored e).status.timer kind_timer s e v) in
      let s₃ = with_event s₂ e (record (s₂.stored e) { timer_msecs = pos tv }) in
      queue_insert-IsLinked kind_timer s₃ e (
        keep-IsLinked s₂ s₃
          (record { actives = refl; inserts = refl; flags = same_status s₂ e _ refl }) v₂)

  add_timeout-IsLinked :
      (r : ℕ × EventSet B) (e : ℕ) (tv : ℤ) → IsLinked r.1 → IsLinked (add_timeout r e tv).1
  unfolding add_timeout
  add_timeout-IsLinked (rc, s) e (pos tv) v = add_timer-IsLinked s e tv v
  add_timeout-IsLinked (rc, s) e (negsuc n) v = v

  -- evsets_add() keeps the agreement of the flags of the events with the lists: every event is once in the
  -- list of active events and in that of inserted events if its flag says so, and else not; whatever the backend answers
  -- and whatever the event and the timeout are.
  pub evsets_add-IsLinked :
      (op_add : B → ℕ → ℤ × B) (s : EventSet B) (e : ℕ) (tv : ℤ)
      → IsLinked s
      → IsLinked (evsets_add op_add s e tv).1
  unfolding evsets_add
  evsets_add-IsLinked op_add s e tv v =
      if-IsLinked (s.stored e).status.other (negsuc 0, s) (add_timeout (add_io op_add s e) e tv) v
        (add_timeout-IsLinked (add_io op_add s e) e tv (add_io-IsLinked op_add s e v))

  -- The flags after the event leaves one list.
  left_flag :
      (j k : Kind) (s : EventSet B) (e : ℕ)
      → flag j ((unlink_from k (set_flag k false s e) e).stored e).status
        ≡ flag j ((set_flag k false s e).stored e).status
  unfolding unlink_from
  left_flag j kind_inserted s e = refl
  left_flag j kind_active s e = refl
  left_flag j kind_timer s e =
      ap (flag j) ((remove-Untouched (set_flag kind_timer false s e) e).flags e)

  pub queue_remove_on :
      (k : Kind) (s : EventSet B) (e : ℕ)
      → flag k (s.stored e).status ≡ true
      → queue_remove k s e ≡ (pos 0, unlink_from k (set_flag k false s e) e)
  unfolding queue_remove
  queue_remove_on k s e on =
      let choice : Bool → ℤ × EventSet B =
        λ c. if c then (pos 0, unlink_from k (set_flag k false s e) e) else (negsuc 0, s) in
      ap choice on

  dropped_self :
      (b : Bool) (k : Kind) (s : EventSet B) (e : ℕ)
      → flag k (s.stored e).status ≡ b
      → flag k ((drop_if b k s e).stored e).status ≡ false
  dropped_self true k s e on =
      let self : (e == e) ≡ true = ground arith in
      let cleared =
        flag_self k false s e e
        ∙ ap (λ (c : Bool). if c then false else flag k (s.stored e).status) self in
      ap (λ (r : ℤ × EventSet B). flag k (r.1.stored e).status) (queue_remove_on k s e on)
      ∙ left_flag k k s e
      ∙ cleared
  dropped_self false k s e off = off

  pub dropped_other :
      (j : Kind) (b : Bool) (k : Kind) (s : EventSet B) (e : ℕ)
      → flag k (s.stored e).status ≡ b
      → j ≢ k
      → flag j ((drop_if b k s e).stored e).status ≡ flag j (s.stored e).status
  dropped_other j true k s e on ne =
      ap (λ (r : ℤ × EventSet B). flag j (r.1.stored e).status) (queue_remove_on k s e on)
      ∙ left_flag j k s e
      ∙ flag_other j k false s e e ne
  dropped_other j false k s e off ne = refl

  -- evsets_del() without the call of the backend.
  abbrev left_all : EventSet B → ℕ → EventSet B
  left_all s e =
      let s₁ = drop_if (s.stored e).status.timer kind_timer s e in
      let s₂ = drop_if (s₁.stored e).status.active kind_active s₁ e in
      drop_if (s₂.stored e).status.inserted kind_inserted s₂ e

  left_all-flags :
      (s : EventSet B) (e : ℕ)
      → (((left_all s e).stored e).status.timer ≡ false)
        × (((left_all s e).stored e).status.active ≡ false)
        × (((left_all s e).stored e).status.inserted ≡ false)
  left_all-flags s e =
      let b₁ = (s.stored e).status.timer in
      let s₁ = drop_if b₁ kind_timer s e in
      let b₂ = (s₁.stored e).status.active in
      let s₂ = drop_if b₂ kind_active s₁ e in
      let b₃ = (s₂.stored e).status.inserted in
      (
        dropped_other kind_timer b₃ kind_inserted s₂ e refl (λ h. cc)
            ∙ dropped_other kind_timer b₂ kind_active s₁ e refl (λ h. cc)
            ∙ dropped_self b₁ kind_timer s e refl,
        dropped_other kind_active b₃ kind_inserted s₂ e refl (λ h. cc)
            ∙ dropped_self b₂ kind_active s₁ e refl,
        dropped_self b₃ kind_inserted s₂ e refl,
      )

  left_all-IsLinked : (s : EventSet B) (e : ℕ) → IsLinked s → IsLinked (left_all s e)
  left_all-IsLinked s e v =
      let b₁ = (s.stored e).status.timer in
      let s₁ = drop_if b₁ kind_timer s e in
      let b₂ = (s₁.stored e).status.active in
      let s₂ = drop_if b₂ kind_active s₁ e in
      drop_if-IsLinked (s₂.stored e).status.inserted kind_inserted s₂ e
        (drop_if-IsLinked b₂ kind_active s₁ e (drop_if-IsLinked b₁ kind_timer s e v))

  -- The flags and the lists agree, and the event is nowhere.
  abbrev Gone : EventSet B → ℕ → Type 0
  Gone s e =
      IsLinked s
      × (occurs e s.activelist ≡ 0)
      × (occurs e s.eventlist ≡ 0)
      × ((s.stored e).status.timer ≡ false)

  left_all-Gone : (s : EventSet B) (e : ℕ) → IsLinked s → Gone (left_all s e) e
  left_all-Gone s e v =
      let v' = left_all-IsLinked s e v in
      let (timer, active, inserted) = left_all-flags s e in
      (v', v'.active e ∙ ap bit active, v'.inserted e ∙ ap bit inserted, timer)

  del_io-Gone :
      (op_del : B → ℕ → ℤ × B) (b : Bool) (s : EventSet B) (e : ℕ)
      → Gone (drop_if b kind_inserted s e) e
      → Gone (del_io op_del b s e).1 e
  unfolding del_io
  del_io-Gone op_del true s e (v, active, inserted, timer) = (
    evsets-IsLinked (queue_remove kind_inserted s e).1
        (op_del (queue_remove kind_inserted s e).1.evsets e).1 v,
    active,
    inserted,
    timer,
  )
  del_io-Gone op_del false s e gone = gone

  pub evsets_del_known :
      (op_del : B → ℕ → ℤ × B) (s : EventSet B) (e : ℕ)
      → (s.stored e).status.other ≡ false
      → let s₁ = drop_if (s.stored e).status.timer kind_timer s e in
        let s₂ = drop_if (s₁.stored e).status.active kind_active s₁ e in
        evsets_del op_del s e ≡ del_io op_del (s₂.stored e).status.inserted s₂ e
  unfolding evsets_del
  evsets_del_known op_del s e known =
      let s₁ = drop_if (s.stored e).status.timer kind_timer s e in
      let s₂ = drop_if (s₁.stored e).status.active kind_active s₁ e in
      let choice : Bool → ℤ × EventSet B =
        λ c. if c then (negsuc 1, s) else del_io op_del (s₂.stored e).status.inserted s₂ e in
      ap choice known

  -- evsets_del() of an event with no foreign bit in its status, in an event set whose flags and lists
  -- agree: they agree afterwards, and the event is in neither list and not in the timer, whatever the backend answers.
  pub evsets_del-IsLinked :
      (op_del : B → ℕ → ℤ × B) (s : EventSet B) (e : ℕ)
      → IsLinked s
      → (s.stored e).status.other ≡ false
      → let s' = (evsets_del op_del s e).1 in
        IsLinked s'
        × (occurs e s'.activelist ≡ 0)
        × (occurs e s'.eventlist ≡ 0)
        × ((s'.stored e).status.timer ≡ false)
  evsets_del-IsLinked op_del s e v known =
      let s₁ = drop_if (s.stored e).status.timer kind_timer s e in
      let s₂ = drop_if (s₁.stored e).status.active kind_active s₁ e in
      subst (λ (r : ℤ × EventSet B). Gone r.1 e) (sym (evsets_del_known op_del s e known))
        (del_io-Gone op_del (s₂.stored e).status.inserted s₂ e (left_all-Gone s e v))

-- ===== src/Event/Quiet.antt =====
-- The operations of src/event.c that leave the list of active events alone.
use libevlite.Base.{
  ℕ, ◌≡◌, ◌≢◌, refl, ap, ◌∙◌, subst, Bool, true, false, Bool-cases, inl, inr, assign_self,
  assign_ne, ℕ_discrete,
}
use libevlite.Event.Defs.{EventSet, Status}
use libevlite.Event.Wheel.{append, remove}
use libevlite.Event.Sets.{
  Kind, kind_inserted, kind_active, kind_timer, with_flag, set_flag, link, queue_insert,
  unlink_from, queue_remove,
}
use libevlite.Event.Linked.{IsLinked, Untouched, append-Untouched, remove-Untouched}

module _ {B : Type 0} where
  -- No event has a foreign bit in its status, and the flags and the lists agree.
  pub record IsReady (s : EventSet B) : Type 0 where
    pub linked : IsLinked s
    pub known : (x : ℕ) → (s.stored x).status.other ≡ false

  -- The list of active events stays, and no event gets a foreign bit.
  pub record IsQuiet (s s' : EventSet B) : Type 0 where
    pub actives : s'.activelist ≡ s.activelist
    pub foreign : (x : ℕ) → (s'.stored x).status.other ≡ (s.stored x).status.other

  pub IsQuiet-then : (s s' s'' : EventSet B) → IsQuiet s s' → IsQuiet s' s'' → IsQuiet s s''
  IsQuiet-then s s' s'' a b = record {
    actives = b.actives ∙ a.actives;
    foreign = λ x. b.foreign x ∙ a.foreign x;
  }

  pub Untouched-IsQuiet : (s s' : EventSet B) → Untouched s s' → IsQuiet s s'
  Untouched-IsQuiet s s' u = record {
    actives = u.actives;
    foreign = λ x. ap (λ st. st.other) (u.flags x);
  }

  pub set_flag_foreign :
      (k : Kind) (b : Bool) (s : EventSet B) (e x : ℕ)
      → ((set_flag k b s e).stored x).status.other ≡ (s.stored x).status.other
  set_flag_foreign k b s e x = elim (ℕ_discrete e x) [
    | yes same ↦
        ap (λ v. v.status.other)
          (subst
            (λ y.
              (set_flag k b s e).stored y
              ≡ record (s.stored y) { status = with_flag k b (s.stored y).status })
            same
            (assign_self s.stored e
              (record (s.stored e) { status = with_flag k b (s.stored e).status })))
        ∙ now k (s.stored x).status
    | no ne ↦ ap (λ v. v.status.other) (assign_ne s.stored e x _ ne)
  ]
    where
      now : (k : Kind) (st : Status) → (with_flag k b st).other ≡ st.other
      now kind_inserted st = refl
      now kind_active st = refl
      now kind_timer st = refl

  -- Of the three lists, the others than that of active events.
  pub remove-IsQuiet :
      (k : Kind) (s : EventSet B) (e : ℕ) → kind_active ≢ k → IsQuiet s (queue_remove k s e).1
  unfolding queue_remove unlink_from
  remove-IsQuiet kind_active s e ne = absurd (ne refl)
  remove-IsQuiet kind_inserted s e ne = elim (Bool-cases (s.stored e).status.inserted) [
    | inl on ↦ rw on (record { actives = refl; foreign = set_flag_foreign kind_inserted false s e })
    | inr off ↦ rw off (record { actives = refl; foreign = λ x. refl })
  ]
  remove-IsQuiet kind_timer s e ne = elim (Bool-cases (s.stored e).status.timer) [
    | inl on ↦
        let s₁ = set_flag kind_timer false s e in
        rw on (
          IsQuiet-then s s₁ (remove s₁ e).1
            (record { actives = refl; foreign = set_flag_foreign kind_timer false s e })
            (Untouched-IsQuiet s₁ (remove s₁ e).1 (remove-Untouched s₁ e)))
    | inr off ↦ rw off (record { actives = refl; foreign = λ x. refl })
  ]

  pub insert-IsQuiet : (s : EventSet B) (e : ℕ) → IsQuiet s (queue_insert kind_timer s e).1
  unfolding queue_insert link
  insert-IsQuiet s e = elim (Bool-cases (s.stored e).status.timer) [
    | inl on ↦ rw on (record { actives = refl; foreign = λ x. refl })
    | inr off ↦
        let s₁ = set_flag kind_timer true s e in
        rw off (
          IsQuiet-then s s₁ (append s₁ e).1
            (record { actives = refl; foreign = set_flag_foreign kind_timer true s e })
            (Untouched-IsQuiet s₁ (append s₁ e).1 (append-Untouched s₁ e)))
  ]

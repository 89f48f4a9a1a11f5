-- ===== src/Event/Linked.antt =====
-- The flags of the events and the lists of the event set (src/event.c).
use libevlite.Base.{
  ℕ, ◌≡◌, ◌≢◌, refl, sym, ap, ◌∙◌, Bool, true, false, leb, ◌==◌, if◌then◌else◌, arith, occurs,
  ℕ_discrete, assign, Bool-cases, inl, inr, subst,
}
use libevlite.Base.Int.{ℤ, pos, negsuc}
use libevlite.Event.Defs.{Status, Event, EventSet}
use libevlite.Event.Wheel.{append, append_timeout, append_at, remove, remove_index, remove_at}
use libevlite.Event.Sets.{
  Kind, kind_inserted, kind_active, kind_timer, flag, with_flag, set_flag, link, queue_insert,
  unlink_from, queue_remove,
}
use libevlite.Event.Once.{bit, one_more, one_less}

module _ {B : Type 0} where
  -- An event is once in the list that its flag names, or not at all.
  pub record IsLinked (s : EventSet B) : Type 0 where
    pub active : (x : ℕ) → occurs x s.activelist ≡ bit (s.stored x).status.active
    pub inserted : (x : ℕ) → occurs x s.eventlist ≡ bit (s.stored x).status.inserted

  -- The wheel changes neither the lists nor the flags.
  pub record Untouched (s s' : EventSet B) : Type 0 where
    pub actives : s'.activelist ≡ s.activelist
    pub inserts : s'.eventlist ≡ s.eventlist
    pub flags : (x : ℕ) → (s'.stored x).status ≡ (s.stored x).status

  pub keep-IsLinked : (s s' : EventSet B) → Untouched s s' → IsLinked s → IsLinked s'
  keep-IsLinked s s' u v = record {
    active = λ x. ap (occurs x) u.actives ∙ v.active x ∙ sym (ap (λ st. bit st.active) (u.flags x));
    inserted =
        λ x. ap (occurs x) u.inserts ∙ v.inserted x ∙ sym (ap (λ st. bit st.inserted) (u.flags x));
  }

  pub same_status :
      (s : EventSet B) (e : ℕ) (ev : Event)
      → ev.status ≡ (s.stored e).status
      → (x : ℕ) → (assign s.stored e ev x).status ≡ (s.stored x).status
  same_status s e ev h x = elim (ℕ_discrete e x) [
    | yes same ↦ let a : (e == x) ≡ true = ground arith in rw (a, sym same) h
    | no ne ↦ let a : (e == x) ≡ false = ground arith in rw a refl
  ]

  append_timeout-Untouched :
      (s : EventSet B) (e : ℕ) (tv : ℤ) → Untouched s (append_timeout s e tv).1
  unfolding append_timeout append_at
  append_timeout-Untouched s e (pos n) = record {
    actives = refl;
    inserts = refl;
    flags = same_status s e _ refl;
  }
  append_timeout-Untouched s e (negsuc n) = record {
    actives = refl;
    inserts = refl;
    flags = λ x. refl;
  }

  pub append-Untouched : (s : EventSet B) (e : ℕ) → Untouched s (append s e).1
  unfolding append
  append-Untouched s e = append_timeout-Untouched s e ((s.stored e).timer_msecs)

  remove_index-Untouched : (s : EventSet B) (e : ℕ) (i : ℤ) → Untouched s (remove_index s e i).1
  unfolding remove_index remove_at
  remove_index-Untouched s e (pos n) = elim (Bool-cases (leb s.core_timer.bucket_count n)) [
    | inl out ↦ rw out (record { actives = refl; inserts = refl; flags = λ x. refl })
    | inr at_it ↦
        rw at_it (record { actives = refl; inserts = refl; flags = same_status s e _ refl })
  ]
  remove_index-Untouched s e (negsuc n) = record {
    actives = refl;
    inserts = refl;
    flags = λ x. refl;
  }

  pub remove-Untouched : (s : EventSet B) (e : ℕ) → Untouched s (remove s e).1
  unfolding remove
  remove-Untouched s e = remove_index-Untouched s e ((s.stored e).timer_index)

  -- The flag that is set, and the others.
  pub flag_self :
      (k : Kind) (b : Bool) (s : EventSet B) (e x : ℕ)
      → flag k ((set_flag k b s e).stored x).status
        ≡ (if e == x then b else flag k (s.stored x).status)
  flag_self k b s e x = elim (Bool-cases (e == x)) [
    | inl same ↦ rw same (now k (s.stored e).status)
    | inr differ ↦ rw differ refl
  ]
    where
      now : (k : Kind) (st : Status) → flag k (with_flag k b st) ≡ b
      now kind_inserted st = refl
      now kind_active st = refl
      now kind_timer st = refl

  pub flag_other :
      (j k : Kind) (b : Bool) (s : EventSet B) (e x : ℕ)
      → j ≢ k
      → flag j ((set_flag k b s e).stored x).status ≡ flag j (s.stored x).status
  flag_other j k b s e x ne = elim (ℕ_discrete e x) [
    | yes same ↦
        let a : (e == x) ≡ true = ground arith in
        rw a (kept j k (s.stored e).status ne ∙ ap (λ i. flag j (s.stored i).status) same)
    | no differ ↦ let a : (e == x) ≡ false = ground arith in rw a refl
  ]
    where
      kept : (j k : Kind) (st : Status) → j ≢ k → flag j (with_flag k b st) ≡ flag j st
      kept kind_inserted kind_inserted st ne = absurd (ne refl)
      kept kind_inserted kind_active st ne = refl
      kept kind_inserted kind_timer st ne = refl
      kept kind_active kind_inserted st ne = refl
      kept kind_active kind_active st ne = absurd (ne refl)
      kept kind_active kind_timer st ne = refl
      kept kind_timer kind_inserted st ne = refl
      kept kind_timer kind_active st ne = refl
      kept kind_timer kind_timer st ne = absurd (ne refl)

  timer-IsLinked :
      (b : Bool) (s : EventSet B) (e : ℕ) → IsLinked s → IsLinked (set_flag kind_timer b s e)
  timer-IsLinked b s e v = record {
    active = λ x. v.active x ∙ sym (ap bit (flag_other kind_active kind_timer b s e x (λ h. cc)));
    inserted =
        λ x. v.inserted x ∙ sym (ap bit (flag_other kind_inserted kind_timer b s e x (λ h. cc)));
  }

  insert-IsLinked :
      (k : Kind) (s : EventSet B) (e : ℕ)
      → IsLinked s
      → flag k (s.stored e).status ≡ false
      → IsLinked (link k (set_flag k true s e) e)
  unfolding link
  insert-IsLinked kind_inserted s e v off = record {
    active = λ x. v.active x ∙ sym (ap bit (flag_other kind_active kind_inserted true s e x apart));
    inserted = λ x.
        one_more e x s.eventlist (s.stored x).status.inserted (v.inserted x)
          (λ same. subst (λ i. (s.stored i).status.inserted ≡ false) same off)
        ∙ sym (ap bit (flag_self kind_inserted true s e x));
  }
    where
      apart : kind_active ≢ kind_inserted
      apart h = cc
  insert-IsLinked kind_active s e v off = record {
    active = λ x.
        one_more e x s.activelist (s.stored x).status.active (v.active x)
          (λ same. subst (λ i. (s.stored i).status.active ≡ false) same off)
        ∙ sym (ap bit (flag_self kind_active true s e x));
    inserted =
        λ x. v.inserted x ∙ sym (ap bit (flag_other kind_inserted kind_active true s e x apart));
  }
    where
      apart : kind_inserted ≢ kind_active
      apart h = cc
  insert-IsLinked kind_timer s e v off =
      keep-IsLinked (set_flag kind_timer true s e) (append (set_flag kind_timer true s e) e).1
        (append-Untouched (set_flag kind_timer true s e) e) (timer-IsLinked true s e v)

  -- event_queue_insert() keeps the flags and the lists in agreement, for each list and the timer.
  pub queue_insert-IsLinked :
      (k : Kind) (s : EventSet B) (e : ℕ) → IsLinked s → IsLinked (queue_insert k s e).1
  unfolding queue_insert
  queue_insert-IsLinked k s e v = elim (Bool-cases (flag k (s.stored e).status)) [
    | inl on ↦ rw on v
    | inr off ↦ rw off (insert-IsLinked k s e v off)
  ]

  remove-IsLinked :
      (k : Kind) (s : EventSet B) (e : ℕ)
      → IsLinked s
      → flag k (s.stored e).status ≡ true
      → IsLinked (unlink_from k (set_flag k false s e) e)
  unfolding unlink_from
  remove-IsLinked kind_inserted s e v on = record {
    active =
        λ x. v.active x ∙ sym (ap bit (flag_other kind_active kind_inserted false s e x apart));
    inserted = λ x.
        one_less e x s.eventlist (s.stored x).status.inserted (v.inserted x)
          (v.inserted e ∙ ap bit on)
        ∙ sym (ap bit (flag_self kind_inserted false s e x));
  }
    where
      apart : kind_active ≢ kind_inserted
      apart h = cc
  remove-IsLinked kind_active s e v on = record {
    active = λ x.
        one_less e x s.activelist (s.stored x).status.active (v.active x) (v.active e ∙ ap bit on)
        ∙ sym (ap bit (flag_self kind_active false s e x));
    inserted =
        λ x. v.inserted x ∙ sym (ap bit (flag_other kind_inserted kind_active false s e x apart));
  }
    where
      apart : kind_inserted ≢ kind_active
      apart h = cc
  remove-IsLinked kind_timer s e v on =
      keep-IsLinked (set_flag kind_timer false s e) (remove (set_flag kind_timer false s e) e).1
        (remove-Untouched (set_flag kind_timer false s e) e) (timer-IsLinked false s e v)

  -- event_queue_remove() keeps the flags and the lists in agreement, for each list and the timer.
  pub queue_remove-IsLinked :
      (k : Kind) (s : EventSet B) (e : ℕ) → IsLinked s → IsLinked (queue_remove k s e).1
  unfolding queue_remove
  queue_remove-IsLinked k s e v = elim (Bool-cases (flag k (s.stored e).status)) [
    | inl on ↦ rw on (remove-IsLinked k s e v on)
    | inr off ↦ rw off v
  ]

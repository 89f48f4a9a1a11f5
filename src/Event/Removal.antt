-- ===== src/Event/Removal.antt =====
-- evsets_del() of src/event.c, on the lists and on the wheel of the timer.
use libevlite.Base.{
  ℕ, ◌≡◌, ◌≢◌, ◌<◌, ◌⊎◌, refl, sym, ap, ◌∙◌, subst, Bool, true, false, leb, ◌==◌, length, arith,
  occurs, [], get_or-set_self, get_or-set_ne, assign_self, ℕ_discrete, Bool-cases, inl, inr,
  if◌then◌else◌,
}
use libevlite.Base.Int.{ℤ, pos, negsuc}
use libevlite.Event.Defs.{EventSet, unlink}
use libevlite.Event.Wheel.{bucket, remove, remove_index, remove_at}
use libevlite.Event.Sets.{
  Kind, kind_inserted, kind_active, kind_timer, set_flag, unlink_from, queue_remove, drop_if,
  del_io, evsets_del,
}
use libevlite.Event.Once.{bit, one_less}
use libevlite.Event.Linked.{IsLinked}
use libevlite.Event.SetLaws.{queue_remove_on, evsets_del_known, evsets_del-IsLinked}

module _ {B : Type 0} where
  -- The event is in bucket `i` once, which it knows, and in no other.
  abbrev pub IsInBucket : EventSet B → ℕ → ℕ → Type 0
  IsInBucket s e i =
      ((s.stored e).timer_index ≡ pos i)
      × (i < s.core_timer.bucket_count)
      × (i < length s.core_timer.bucket_array)
      × (occurs e (bucket s.core_timer i) ≡ 1)
      × ((b : ℕ) → i ≢ b → occurs e (bucket s.core_timer b) ≡ 0)

  -- The event is in the wheel as its flag says.
  abbrev pub IsPlaced : EventSet B → ℕ → Type 0
  IsPlaced s e =
      (((s.stored e).status.timer ≡ false) × ((b : ℕ) → occurs e (bucket s.core_timer b) ≡ 0))
      ⊎ (((s.stored e).status.timer ≡ true) × ((i : ℕ) × IsInBucket s e i))

  abbrev IsUnwheeled : EventSet B → ℕ → Type 0
  IsUnwheeled s e = (b : ℕ) → occurs e (bucket s.core_timer b) ≡ 0

  remove_at-IsUnwheeled :
      (s : EventSet B) (e i : ℕ) → IsInBucket s e i → IsUnwheeled (remove_at s e i) e
  unfolding remove_at
  remove_at-IsUnwheeled s e i (index, below, within, once, away) b =
      let rest = unlink e (bucket s.core_timer i) in
      let self : (e == e) ≡ true = ground arith in
      elim (ℕ_discrete i b) [
        | yes same ↦
            subst (λ j. occurs e (bucket (remove_at s e i).core_timer j) ≡ 0) same
              (ap (occurs e) (get_or-set_self s.core_timer.bucket_array i rest [] within)
                ∙ one_less e e (bucket s.core_timer i) true once once
                ∙ ap (λ (c : Bool). bit (if c then false else true)) self)
        | no ne ↦ ap (occurs e) (get_or-set_ne s.core_timer.bucket_array i b rest [] ne) ∙ away b ne
      ]

  remove-IsUnwheeled : (s : EventSet B) (e i : ℕ) → IsInBucket s e i → IsUnwheeled (remove s e).1 e
  unfolding remove remove_index
  remove-IsUnwheeled s e i (index, below, within, once, away) =
      let inside : leb s.core_timer.bucket_count i ≡ false = ground arith in
      let choice : Bool → ℤ × EventSet B =
        λ c. if c then (negsuc 0, s) else (pos 0, remove_at s e i) in
      subst (λ (r : ℤ × EventSet B). IsUnwheeled r.1 e)
        (sym (ap (remove_index s e) index ∙ ap choice inside))
        (remove_at-IsUnwheeled s e i (index, below, within, once, away))

  drop_timer-IsUnwheeled :
      (s : EventSet B) (e : ℕ)
      → IsPlaced s e
      → IsUnwheeled (drop_if (s.stored e).status.timer kind_timer s e) e
  unfolding unlink_from
  drop_timer-IsUnwheeled s e (inl (off, nowhere)) =
      subst (λ c. IsUnwheeled (drop_if c kind_timer s e) e) (sym off) nowhere
  drop_timer-IsUnwheeled s e (inr (on, (i, (index, below, within, once, away)))) =
      let s₁ = set_flag kind_timer false s e in
      subst (λ c. IsUnwheeled (drop_if c kind_timer s e) e) (sym on)
        (subst (λ (r : ℤ × EventSet B). IsUnwheeled r.1 e) (sym (queue_remove_on kind_timer s e on))
          (remove-IsUnwheeled s₁ e i (
            ap (λ w. w.timer_index) (assign_self s.stored e _) ∙ index,
            below,
            within,
            once,
            away,
          )))

  -- The two lists, in contrast to the wheel.
  drop_if-core_timer :
      (b : Bool) (k : Kind) (s : EventSet B) (e : ℕ)
      → k ≢ kind_timer
      → (drop_if b k s e).core_timer ≡ s.core_timer
  unfolding queue_remove unlink_from
  drop_if-core_timer false k s e ne = refl
  drop_if-core_timer true kind_timer s e ne = absurd (ne refl)
  drop_if-core_timer true kind_active s e ne = elim (Bool-cases (s.stored e).status.active) [
    | inl on ↦ rw on refl
    | inr off ↦ rw off refl
  ]
  drop_if-core_timer true kind_inserted s e ne = elim (Bool-cases (s.stored e).status.inserted) [
    | inl on ↦ rw on refl
    | inr off ↦ rw off refl
  ]

  del_io-core_timer :
      (op_del : B → ℕ → ℤ × B) (b : Bool) (s : EventSet B) (e : ℕ)
      → (del_io op_del b s e).1.core_timer ≡ s.core_timer
  unfolding del_io
  del_io-core_timer op_del true s e = drop_if-core_timer true kind_inserted s e (λ h. cc)
  del_io-core_timer op_del false s e = refl

  -- evsets_del() of an event with no foreign bit in its status, in an event set whose flags and lists
  -- agree, where the event is in one bucket of the wheel, which it knows, if its flag says that it waits for
  -- the timer, and else in none: the flags and the lists agree afterwards, and the event is in
  -- neither list and in no bucket, and has no flag of the timer, whatever the backend answers.
  pub evsets_del-removes :
      (op_del : B → ℕ → ℤ × B) (s : EventSet B) (e b : ℕ)
      → IsLinked s
      → IsPlaced s e
      → (s.stored e).status.other ≡ false
      → let s' = (evsets_del op_del s e).1 in
        IsLinked s'
        × (occurs e s'.activelist ≡ 0)
        × (occurs e s'.eventlist ≡ 0)
        × (occurs e (bucket s'.core_timer b) ≡ 0)
        × ((s'.stored e).status.timer ≡ false)
  evsets_del-removes op_del s e b v placed known =
      let s₁ = drop_if (s.stored e).status.timer kind_timer s e in
      let s₂ = drop_if (s₁.stored e).status.active kind_active s₁ e in
      let (v', active, inserted, timer) = evsets_del-IsLinked op_del s e v known in
      let wheel : (evsets_del op_del s e).1.core_timer ≡ s₁.core_timer =
        ap (λ (r : ℤ × EventSet B). r.1.core_timer) (evsets_del_known op_del s e known)
        ∙ del_io-core_timer op_del (s₂.stored e).status.inserted s₂ e
        ∙ drop_if-core_timer (s₁.stored e).status.active kind_active s₁ e (λ h. cc) in
      (
        v',
        active,
        inserted,
        ap (λ t. occurs e (bucket t b)) wheel ∙ drop_timer-IsUnwheeled s e placed b,
        timer,
      )

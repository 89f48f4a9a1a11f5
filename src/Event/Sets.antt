-- ===== src/Event/Sets.antt =====
-- The lists of an event set and evsets_add(), evsets_del() of src/event.c. The backend (src/epoll.c,
-- src/kqueue.c) is a state `B` with two functions of `struct eventop`. There is one event set, so the
-- field `evsets` of an event is left out.
use libevlite.Base.{ℕ, ◌+◌, Bool, true, false, ◌&&◌, ◌||◌, not, ltb, ◌==◌, if◌then◌else◌}
use libevlite.Base.Int.{ℤ, pos, negsuc}
use libevlite.Event.Defs.{Status, EventSet, unlink, inserted_last, with_event}
use libevlite.Event.Wheel.{append, remove}

-- The `type` of event_queue_insert() and event_queue_remove().
pub data Kind : Type 0 where
  kind_inserted : Kind
  kind_active : Kind
  kind_timer : Kind

abbrev pub flag : Kind → Status → Bool
flag kind_inserted st = st.inserted
flag kind_active st = st.active
flag kind_timer st = st.timer

abbrev pub with_flag : Kind → Bool → Status → Status
with_flag kind_inserted b st = record st { inserted = b }
with_flag kind_active b st = record st { active = b }
with_flag kind_timer b st = record st { timer = b }

abbrev pub is_zero : ℤ → Bool
is_zero (pos n) = n == 0
is_zero (negsuc n) = false

abbrev pub is_positive : ℤ → Bool
is_positive (pos n) = ltb 0 n
is_positive (negsuc n) = false

module _ {B : Type 0} where
  -- The change of the status alone.
  abbrev pub set_flag : Kind → Bool → EventSet B → ℕ → EventSet B
  set_flag k b s e =
      let ev = s.stored e in with_event s e (record ev { status = with_flag k b ev.status })

  -- The `switch` of event_queue_insert().
  unfoldable pub link : Kind → EventSet B → ℕ → EventSet B
  unfolding append
  link kind_inserted s e = record s { eventlist = inserted_last e s.eventlist }
  link kind_active s e = record s { activelist = inserted_last e s.activelist }
  link kind_timer s e = (append s e).1

  unfoldable pub queue_insert : Kind → EventSet B → ℕ → ℤ × EventSet B
  unfolding link
  queue_insert k s e =
      if flag k (s.stored e).status then (pos 1, s) else (pos 0, link k (set_flag k true s e) e)

  unfoldable pub unlink_from : Kind → EventSet B → ℕ → EventSet B
  unfolding unlink remove
  unlink_from kind_inserted s e = record s { eventlist = unlink e s.eventlist }
  unlink_from kind_active s e = record s { activelist = unlink e s.activelist }
  unlink_from kind_timer s e = (remove s e).1

  unfoldable pub queue_remove : Kind → EventSet B → ℕ → ℤ × EventSet B
  unfolding unlink_from
  queue_remove k s e =
      if flag k (s.stored e).status
      then (pos 0, unlink_from k (set_flag k false s e) e)
      else (negsuc 0, s)

  -- The part of evsets_add() on the descriptor; `op_add` is the function of the backend.
  unfoldable pub add_io : (B → ℕ → ℤ × B) → EventSet B → ℕ → ℕ × EventSet B
  unfolding queue_insert
  add_io op_add s e =
      let ev = s.stored e in
      let (rc, b) = op_add s.evsets e in
      let s' = record s { evsets = b } in
      if is_positive ev.fd
        && (ev.events.ev_read || ev.events.ev_write)
        && not (ev.status.active || ev.status.inserted)
      then if is_zero rc then (1, (queue_insert kind_inserted s' e).1) else (0, s')
      else (0, s)

  abbrev pub drop_if : Bool → Kind → EventSet B → ℕ → EventSet B
  drop_if b k s e = if b then (queue_remove k s e).1 else s

  -- The part of evsets_add() on a timeout that is not negative.
  unfoldable pub add_timer : EventSet B → ℕ → ℕ → EventSet B
  unfolding queue_insert queue_remove
  add_timer s e tv =
      let s₁ = drop_if (s.stored e).status.timer kind_timer s e in
      let ev = s₁.stored e in
      let s₂ = drop_if (ev.results.ev_timeout && ev.status.active) kind_active s₁ e in
      (queue_insert kind_timer (with_event s₂ e (record (s₂.stored e) { timer_msecs = pos tv }))
        e).1

  unfoldable pub add_timeout : ℕ × EventSet B → ℕ → ℤ → ℤ × EventSet B
  unfolding add_timer
  add_timeout (rc, s) e (pos tv) = (pos (rc + 2), add_timer s e tv)
  add_timeout (rc, s) e (negsuc n) = (pos rc, s)

  unfoldable pub evsets_add : (B → ℕ → ℤ × B) → EventSet B → ℕ → ℤ → ℤ × EventSet B
  unfolding add_io add_timeout
  evsets_add op_add s e tv =
      if (s.stored e).status.other then (negsuc 0, s) else add_timeout (add_io op_add s e) e tv

  -- The last step of evsets_del(), by whether the event is inserted.
  unfoldable pub del_io : (B → ℕ → ℤ × B) → Bool → EventSet B → ℕ → ℤ × EventSet B
  unfolding queue_remove
  del_io op_del true s e =
      let s' = (queue_remove kind_inserted s e).1 in
      let (rc, b) = op_del s'.evsets e in (rc, record s' { evsets = b })
  del_io op_del false s e = (pos 0, s)

  unfoldable pub evsets_del : (B → ℕ → ℤ × B) → EventSet B → ℕ → ℤ × EventSet B
  unfolding queue_remove del_io
  evsets_del op_del s e =
      let s₁ = drop_if (s.stored e).status.timer kind_timer s e in
      let s₂ = drop_if (s₁.stored e).status.active kind_active s₁ e in
      if (s.stored e).status.other
      then (negsuc 1, s)
      else del_io op_del (s₂.stored e).status.inserted s₂ e

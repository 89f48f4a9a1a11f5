-- ===== src/Event/Tests.antt =====
-- The event loop (src/event.c, src/timer.c) at small concrete inputs.
use mathlib.Core.List.{Sublistᴰ}
use libevlite.Base.{
  List, map, length, if◌then◌else◌, ℕ, zero, suc, ◌<◌, ◌⊎◌, some, ap, sym, subst, occurs, assign,
  Bool-cases, inl, inr, ◌==◌, ◌+◌, ◌/◌, ◌≡◌, ◌≢◌, refl, [], ◌∷◌, arith, true, false, replicate,
}
use libevlite.Base.Int.{ℤ, pos, negsuc, ◌≤ℤ◌}
use libevlite.Event.Defs.{no_mask, Event, EventSet}
use libevlite.Event.Wheel.{bucket, append, append_at, dispatch}
use libevlite.Event.Sets.{evsets_add, evsets_del}
use libevlite.Event.Once.{bit}
use libevlite.Event.Linked.{IsLinked}
use libevlite.Event.SetLaws.{evsets_add-IsLinked}
use libevlite.Event.Removal.{IsPlaced, evsets_del-removes}
use libevlite.Event.Dispatch.{fired}
use libevlite.Event.Advance.{AllTimedIn, IsTimed, current}
use libevlite.Event.Countdown.{Expired, Nearer, dispatch-due}
use libevlite.Event.Loop.{wait_time, process_active}
use libevlite.Event.Wait.{wait_time-bounds}
use libevlite.Event.Quiet.{IsReady}
use libevlite.Event.Active.{process_active_lem, callback}
use libevlite.Event.Callbacks.{SetCall, dels, adds, subject}
use libevlite.Event.Fires.{dispatch_times, appended-IsTimed, append-fires, IsAfter}
use libevlite.Event.Due.{IsWheel, due, at_least, late, place}

abbrev idle_event : Event
idle_event = record {
  fd = negsuc 0;
  events = no_mask;
  status = record {
    inserted = false;
    timer = false;
    active = false;
    internal = false;
    init = true;
    other = false;
  };
  results = no_mask;
  timer_msecs = pos 85;
  timer_index = negsuc 0;
  timer_stepcnt = negsuc 0;
}

-- Four buckets of 10 milliseconds each, and nothing in them.
abbrev small_set : EventSet (Unit {0})
small_set = record {
  timer_precision = pos 10;
  expire_time = pos 0;
  cache_current = pos 0;
  core_timer = record {
    event_count = 0;
    bucket_count = 4;
    max_precision = 10;
    dispatch_refer = 2;
    bucket_array = replicate 4 [];
  };
  evsets = tt;
  eventlist = [];
  activelist = [];
  stored = λ e. idle_event;
}

small_set-IsWheel : IsWheel small_set.core_timer
small_set-IsWheel = record {
  power = (2, omega arith, refl);
  stored = refl;
  refer_word = omega arith;
  precise = omega arith;
  round = omega arith;
}

no_event : (b : ℕ) → bucket small_set.core_timer b ≡ []
no_event zero = refl
no_event (suc zero) = refl
no_event (suc (suc zero)) = refl
no_event (suc (suc (suc zero))) = refl
no_event (suc (suc (suc (suc b)))) = refl

small_set-IsTimed : IsTimed small_set
unfolding AllTimedIn
small_set-IsTimed = record {
  wheel = small_set-IsWheel;
  once = λ b x. omega (arith, ap (occurs x) (no_event b));
  timed = λ b. subst (AllTimedIn small_set b) (sym (no_event b)) tt;
}

unlisted : (b : ℕ) → occurs 7 (bucket small_set.core_timer b) ≡ 0
unlisted b = ap (occurs 7) (no_event b)

append-fires_example :
    let t = small_set.core_timer in
    let tv = at_least t 85 in
    (s' : EventSet (Unit {0})) × (dispatch_times 12 (append small_set 7).1 ≡ some s')
    × IsTimed s'
    × IsAfter 12 (tv / t.max_precision + late t tv) small_set s' (place t tv) 7
append-fires_example =
    append-fires small_set 7 85 12 small_set-IsTimed unlisted refl (omega arith) (omega arith)

-- Event 7 in its bucket.
abbrev timed_set : EventSet (Unit {0})
timed_set = append_at small_set 7 85

timed_set-IsTimed : IsTimed timed_set
unfolding append_at
timed_set-IsTimed =
    appended-IsTimed small_set 7 85 small_set-IsTimed
      (record {
        power = (2, omega arith, refl);
        stored = refl;
        refer_word = omega arith;
        precise = omega arith;
        round = omega arith;
      })
      unlisted

listed : 0 < occurs 7 (bucket timed_set.core_timer 1)
unfolding append_at
listed = omega arith

dispatch-due_example :
    let t = timed_set.core_timer in
    let ev = timed_set.stored 7 in
    let left = due t ev.timer_index ev.timer_stepcnt in
    (s' : EventSet (Unit {0})) × (dispatch timed_set
      ≡ some (s', fired timed_set.stored (bucket t (current t))))
    × IsTimed s'
    × (Expired s' 1 7 left ⊎ Nearer timed_set s' 1 7 left)
dispatch-due_example = dispatch-due timed_set 1 7 timed_set-IsTimed listed

-- 85 milliseconds are 8 steps, and it takes 12.
late_at_85 : 85 / 10 + late small_set.core_timer 85 ≡ 12
late_at_85 = refl

-- A backend that accepts everything.
abbrev accepting : Unit {0} → ℕ → ℤ × Unit {0}
accepting b e = (pos 0, tt)

-- Event 7 waits for reading on descriptor 3, and is active.
abbrev busy_set : EventSet (Unit {0})
busy_set = record small_set {
  activelist = 7 ∷ [];
  stored = assign small_set.stored 7 (record idle_event {
    fd = pos 3;
    events = record no_mask { ev_read = true };
    status = record idle_event.status { active = true };
  });
}

busy_active : (x : ℕ) → occurs x busy_set.activelist ≡ bit (busy_set.stored x).status.active
busy_active x = elim (Bool-cases (7 == x)) [ inl same ↦ rw same refl | inr differ ↦ rw differ refl ]

busy_inserted : (x : ℕ) → occurs x busy_set.eventlist ≡ bit (busy_set.stored x).status.inserted
busy_inserted x = elim (Bool-cases (7 == x)) [
  | inl same ↦ rw same refl
  | inr differ ↦ rw differ refl
]

busy_set-IsLinked : IsLinked busy_set
busy_set-IsLinked = record { active = busy_active; inserted = busy_inserted }

evsets_add-IsLinked_example : IsLinked (evsets_add accepting busy_set 7 (pos 85)).1
evsets_add-IsLinked_example = evsets_add-IsLinked accepting busy_set 7 (pos 85) busy_set-IsLinked

-- Event 7 waits for the timer, in bucket 1.
abbrev waiting_set : EventSet (Unit {0})
waiting_set = (evsets_add accepting small_set 7 (pos 85)).1

waiting_set-IsLinked : IsLinked waiting_set
waiting_set-IsLinked =
    evsets_add-IsLinked accepting small_set 7 (pos 85)
      (record { active = λ x. refl; inserted = λ x. refl })

waiting_set-IsPlaced : IsPlaced waiting_set 7
unfolding evsets_add append_at
waiting_set-IsPlaced = inr (refl, (1, (refl, omega arith, omega arith, refl, elsewhere)))
  where
    elsewhere : (b : ℕ) → 1 ≢ b → occurs 7 (bucket waiting_set.core_timer b) ≡ 0
    elsewhere zero ne = refl
    elsewhere (suc zero) ne = absurd (ne refl)
    elsewhere (suc (suc zero)) ne = refl
    elsewhere (suc (suc (suc zero))) ne = refl
    elsewhere (suc (suc (suc (suc b)))) ne = refl

waiting_set_known : (waiting_set.stored 7).status.other ≡ false
unfolding evsets_add
waiting_set_known = refl

evsets_del-removes_example :
    let s' = (evsets_del accepting waiting_set 7).1 in
    IsLinked s'
    × (occurs 7 s'.activelist ≡ 0)
    × (occurs 7 s'.eventlist ≡ 0)
    × (occurs 7 (bucket s'.core_timer 1) ≡ 0)
    × ((s'.stored 7).status.timer ≡ false)
evsets_del-removes_example =
    evsets_del-removes accepting waiting_set 7 1 waiting_set-IsLinked waiting_set-IsPlaced
      waiting_set_known

wait_time-bounds_example :
    let w = (wait_time (pos 100) small_set).0 in (pos 0 ≤ℤ w) × (w ≤ℤ small_set.timer_precision)
wait_time-bounds_example = wait_time-bounds (pos 100) small_set 10 refl

-- Events 7 and 8 are active, and the callback of 7 deletes 8 and adds 7 again.
abbrev pair_set : EventSet (Unit {0})
pair_set = record busy_set {
  activelist = 7 ∷ 8 ∷ [];
  stored =
      assign busy_set.stored 8
        (record idle_event { status = record idle_event.status { active = true } });
}

pair_active : (x : ℕ) → occurs x pair_set.activelist ≡ bit (pair_set.stored x).status.active
pair_active x = elim (Bool-cases (8 == x)) [
  | inl eight ↦ let away : (7 == x) ≡ false = ground (arith, eight) in rw (eight, away) refl
  | inr other_8 ↦ elim (Bool-cases (7 == x)) [
    | inl seven ↦ rw (other_8, seven) refl
    | inr other_7 ↦ rw (other_8, other_7) refl
  ]
]

pair_inserted : (x : ℕ) → occurs x pair_set.eventlist ≡ bit (pair_set.stored x).status.inserted
pair_inserted x = elim (Bool-cases (8 == x)) [
  | inl eight ↦ rw eight refl
  | inr other_8 ↦ elim (Bool-cases (7 == x)) [
    | inl seven ↦ rw (other_8, seven) refl
    | inr other_7 ↦ rw (other_8, other_7) refl
  ]
]

pair_known : (x : ℕ) → (pair_set.stored x).status.other ≡ false
pair_known x = elim (Bool-cases (8 == x)) [
  | inl eight ↦ rw eight refl
  | inr other_8 ↦ elim (Bool-cases (7 == x)) [
    | inl seven ↦ rw (other_8, seven) refl
    | inr other_7 ↦ rw (other_8, other_7) refl
  ]
]

abbrev meddling : EventSet (Unit {0}) → ℕ → List SetCall
meddling s e = if e == 7 then dels 8 ∷ adds 7 (pos 85) ∷ [] else []

meddling_free :
    (s : EventSet (Unit {0})) (e : ℕ) → e ≢ 7 → occurs 7 (map subject (meddling s e)) ≡ 0
meddling_free s e ne = let away : (e == 7) ≡ false = ground arith in rw away refl

process_active_lem_example :
    (s' : EventSet (Unit {0})) × (called_back : List ℕ) × (process_active accepting
        (callback accepting accepting meddling)
        3
        pair_set
        0
      ≡ some (length called_back, s', called_back))
    × IsReady s'
    × (s'.activelist ≡ [])
    × Sublistᴰ called_back (7 ∷ 8 ∷ [])
    × (occurs 7 called_back ≡ 1)
process_active_lem_example =
    process_active_lem accepting accepting meddling pair_set 7 meddling_free (record {
      linked = record { active = pair_active; inserted = pair_inserted };
      known = pair_known;
    })

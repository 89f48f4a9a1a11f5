-- ===== src/Event/Loop.antt =====
-- The life of an event and of an event set, and one round of the event loop (src/event.c), with
-- evtimer_clean() of src/timer.c. The clock, the backend and the callbacks are parameters.
use libevlite.Base.{
  ℕ, zero, suc, ◌+◌, ◌-◌, ◌%◌, ◌^◌, Bool, true, false, Option, none, some, List, [], ◌∷◌, ltb,
  if◌then◌else◌,
}
use libevlite.Base.Int.{ℤ, pos, negsuc, ◌+ℤ◌, ◌-ℤ◌, ltb_ℤ}
use libevlite.Base.Words.{u32_mod, sub32}
use libevlite.Event.Defs.{Mask, no_mask, Status, Event, Timer, EventSet, with_event}
use libevlite.Event.Wheel.{bucket, create, dispatch}
use libevlite.Event.Sets.{kind_active, kind_timer, queue_insert, queue_remove, evsets_del}

-- EVSTATUS_INIT.
abbrev pub init_status : Status
init_status = record {
  inserted = false;
  timer = false;
  active = false;
  internal = false;
  init = true;
  other = false;
}

abbrev pub new_event : Event
new_event = record {
  fd = negsuc 0;
  events = no_mask;
  status = init_status;
  results = no_mask;
  timer_msecs = negsuc 0;
  timer_index = negsuc 0;
  timer_stepcnt = negsuc 0;
}

-- `allocated` is the answer of malloc().
unfoldable pub event_create : Bool → Option Event
event_create allocated = if allocated then some new_event else none

unfoldable pub event_set : Event → ℤ → Mask → Event
event_set ev fd events = record ev { fd = fd; events = events }

abbrev pub timer_bucket_count : ℕ
timer_bucket_count = 8192

-- The cast of int64_t to int32_t.
abbrev pub to_int32 : ℤ → ℤ
to_int32 (pos n) = let w = n % u32_mod in if ltb w (2 ^ 31) then pos w else negsuc (u32_mod - 1 - w)
to_int32 (negsuc n) =
    let w = n % u32_mod in if ltb w (2 ^ 31) then negsuc w else pos (u32_mod - 1 - w)

-- `cached`, or `now` when that is 0.
abbrev pub or_now : ℤ → ℤ → ℤ
or_now (pos zero) now = now
or_now (pos (suc n)) now = pos (suc n)
or_now (negsuc n) now = negsuc n

abbrev pub wait_between : ℤ → ℤ → ℤ
wait_between precision seconds =
    if ltb_ℤ seconds (pos 0) then pos 0 else if ltb_ℤ precision seconds then precision else seconds

module _ {B : Type 0} where
  -- `attached` is whether the event has an event set.
  unfoldable pub event_reset : (B → ℕ → ℤ × B) → Bool → EventSet B → ℕ → EventSet B
  unfolding evsets_del
  event_reset op_del attached s e =
      with_event (if attached then (evsets_del op_del s e).1 else s) e new_event

  -- milliseconds() answers `now`.
  unfoldable pub get_current : ℤ → EventSet B → Bool → ℤ × EventSet B
  get_current now s clear =
      let cached = if clear then pos 0 else s.cache_current in
      let current = or_now cached now in (current, record s { cache_current = current })

  -- The answers are those of calloc(), of init() of the backend and of evtimer_create().
  unfoldable pub evsets_create : Bool → Option B → Bool → ℤ → ℕ → (ℕ → Event) → Option (EventSet B)
  unfolding create
  evsets_create allocated none made now precision stored = none
  evsets_create allocated (some b) made now precision stored =
      let built : Option Timer → Option (EventSet B) = λ t. elim t [
        | none ↦ none
        | some timer ↦ some (record {
          timer_precision = pos precision;
          expire_time = now +ℤ pos precision;
          cache_current = pos 0;
          core_timer = timer;
          evsets = b;
          eventlist = [];
          activelist = [];
          stored = stored;
        })
      ] in
      if allocated then built (create made precision timer_bucket_count) else none

  -- The time that evsets_dispatch() lets the backend wait.
  unfoldable pub wait_time : ℤ → EventSet B → ℤ × EventSet B
  unfolding get_current
  wait_time now s =
      let (current, s') = get_current now s true in
      let seconds = to_int32 (s.expire_time -ℤ current) in
      elim s.activelist [ [] ↦ (wait_between s.timer_precision seconds, s') | e ∷ es ↦ (pos 0, s) ]

  abbrev pub expire_at : ℤ → EventSet B × ℕ → EventSet B
  expire_at t (s, rc) = record s { expire_time = t }

  -- The timers, when their time has come.
  unfoldable pub expire : ℤ → EventSet B → Option (EventSet B)
  unfolding get_current dispatch
  expire now s =
      let (current, s') = get_current now s true in
      let next = current +ℤ s.timer_precision in
      if ltb_ℤ current s.expire_time
      then some s'
      else elim (dispatch s') [ none ↦ none | some r ↦ some (expire_at next r) ]

  -- What evsets_process_active() does with an event before it calls back.
  unfoldable pub take_active : (B → ℕ → ℤ × B) → EventSet B → ℕ → EventSet B
  unfolding evsets_del queue_remove queue_insert
  take_active op_del s e =
      let s₁ = (queue_remove kind_active s e).1 in
      let s₂ = if (s₁.stored e).results.ev_timeout then s₁ else (queue_remove kind_timer s₁ e).1 in
      if (s.stored e).events.ev_persist
      then if ltb_ℤ (s₁.stored e).timer_msecs (pos 0) then s₁ else (queue_insert kind_timer s₂ e).1
      else (evsets_del op_del s e).1

  module _ (op_del : B → ℕ → ℤ × B) (callback : EventSet B → ℕ → EventSet B) where
    -- On fuel; the last component lists the events that were called back.
    unfoldable pub process_active : ℕ → EventSet B → ℕ → Option (ℕ × EventSet B × List ℕ)
    unfolding take_active
    process_active zero s rc = none
    process_active (suc fuel) s rc = elim s.activelist [
      | [] ↦ some (rc, s, [])
      | e ∷ es ↦ elim (process_active fuel (callback (take_active op_del s e) e) (rc + 1)) [
        | none ↦ none
        | some (n, s', calls) ↦ some (n, s', e ∷ calls)
      ]
    ]

    -- `poll s t` is the dispatch() of the backend, which waits up to `t`, with the times before and after.
    unfoldable pub evsets_dispatch :
        (EventSet B → ℤ → EventSet B) → ℤ → ℤ → ℕ → EventSet B → Option (ℕ × EventSet B × List ℕ)
    unfolding wait_time expire process_active
    evsets_dispatch poll before after fuel s =
        let (seconds, s₁) = wait_time before s in
        elim (expire after (poll s₁ seconds)) [ none ↦ none | some s₂ ↦ process_active fuel s₂ 0 ]

  module _ (op_del : B → ℕ → ℤ × B) where
    -- evsets_del() takes no other event from the list, so the loops go over it as it was.
    unfoldable pub clean_bucket : List ℕ → EventSet B × ℕ → EventSet B × ℕ
    unfolding evsets_del
    clean_bucket [] r = r
    clean_bucket (e ∷ es) (s, rc) =
        let s' = (evsets_del op_del s e).1 in
        let t = s'.core_timer in
        clean_bucket es
          (record s' { core_timer = record t { event_count = sub32 t.event_count 1 } }, rc + 1)

    -- The last `n` buckets.
    unfoldable pub clean_buckets : ℕ → EventSet B × ℕ → EventSet B × ℕ
    unfolding clean_bucket
    clean_buckets zero r = r
    clean_buckets (suc n) (s, rc) =
        clean_buckets n
          (clean_bucket (bucket s.core_timer (s.core_timer.bucket_count - suc n)) (s, rc))

    unfoldable pub clean : EventSet B → EventSet B × ℕ
    unfolding clean_buckets
    clean s =
        let (s', rc) = clean_buckets s.core_timer.bucket_count (s, 0) in
        (record s' { core_timer = record s'.core_timer { dispatch_refer = 0 } }, rc)

    -- The events of a list that are not internal.
    unfoldable pub del_each : List ℕ → EventSet B → EventSet B
    unfolding evsets_del
    del_each [] s = s
    del_each (e ∷ es) s =
        del_each es (if (s.stored e).status.internal then s else (evsets_del op_del s e).1)

    -- evsets_destroy() of an event set with a timer, up to what it frees.
    unfoldable pub evsets_destroy : EventSet B → EventSet B
    unfolding clean del_each
    evsets_destroy s =
        let s₁ = del_each s.eventlist s in let s₂ = (clean s₁).0 in del_each s₂.activelist s₂

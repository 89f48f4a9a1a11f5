-- ===== src/Event/Wheel.antt =====
-- The timer wheel of src/timer.c. A function that uses the address of an event and its fields takes
-- the event set that stores them.
use Prim.Native.Nat.{bit_and}
use libevlite.Base.{
  ℕ, zero, suc, ◌+◌, ◌-◌, ◌*◌, ◌/◌, ◌%◌, Bool, true, false, Option, none, some, List, [], ◌∷◌, ltb,
  leb, ◌==◌, if◌then◌else◌, get_or, set, replicate, length,
}
use libevlite.Base.Int.{ℤ, pos, negsuc}
use libevlite.Base.Words.{u32_mod, add32, sub32}
use libevlite.Event.Defs.{
  Mask, mask_or, only_timeout, Timer, EventSet, decrement, unlink, inserted_last, with_event,
}

-- `allocated` is the answer of calloc().
unfoldable pub create : Bool → ℕ → ℕ → Option Timer
create allocated max_precision bucket_count =
    if allocated
    then some (record {
      event_count = 0;
      bucket_count = bucket_count;
      max_precision = max_precision;
      dispatch_refer = 0;
      bucket_array = replicate bucket_count [];
    })
    else none

-- EVTIMER_INDEX.
abbrev pub wheel_index : Timer → ℕ → ℕ
wheel_index t c = bit_and c (t.bucket_count - 1)

abbrev pub bucket : Timer → ℕ → List ℕ
bucket t i = get_or t.bucket_array i []

abbrev pub steps : Timer → ℕ → ℕ
steps t tv =
    let round = (t.max_precision * t.bucket_count) % u32_mod in
    tv / round + (if tv % round == 0 then 0 else 1)

-- TAILQ_LAST.
abbrev pub last_of : ℕ → List ℕ → ℕ
last_of e [] = e
last_of e (x ∷ xs) = last_of x xs

module _ {B : Type 0} where
  unfoldable pub append_at : EventSet B → ℕ → ℕ → EventSet B
  append_at s e msecs =
      let t = s.core_timer in
      let ev = s.stored e in
      let tv = if ltb msecs t.max_precision then t.max_precision else msecs in
      let index = wheel_index t (add32 (sub32 t.dispatch_refer 1) (tv / t.max_precision)) in
      record s {
        stored =
            (with_event s e
              (record ev { timer_index = pos index; timer_stepcnt = pos (steps t tv) })).stored;
        core_timer = record t {
          event_count = add32 t.event_count 1;
          bucket_array = set t.bucket_array index (inserted_last e (bucket t index));
        };
      }

  unfoldable pub append_timeout : EventSet B → ℕ → ℤ → ℤ × EventSet B
  unfolding append_at
  append_timeout s e (pos msecs) = (pos 0, append_at s e msecs)
  append_timeout s e (negsuc n) = (negsuc 0, s)

  unfoldable pub append : EventSet B → ℕ → ℤ × EventSet B
  unfolding append_timeout
  append s e = append_timeout s e ((s.stored e).timer_msecs)

  unfoldable pub remove_at : EventSet B → ℕ → ℕ → EventSet B
  unfolding unlink
  remove_at s e index =
      let t = s.core_timer in
      record s {
        stored =
            (with_event s e
              (record (s.stored e) { timer_index = negsuc 0; timer_stepcnt = negsuc 0 })).stored;
        core_timer = record t {
          event_count = sub32 t.event_count 1;
          bucket_array = set t.bucket_array index (unlink e (bucket t index));
        };
      }

  unfoldable pub remove_index : EventSet B → ℕ → ℤ → ℤ × EventSet B
  unfolding remove_at
  remove_index s e (pos index) =
      if leb s.core_timer.bucket_count index then (negsuc 0, s) else (pos 0, remove_at s e index)
  remove_index s e (negsuc n) = (negsuc 0, s)

  unfoldable pub remove : EventSet B → ℕ → ℤ × EventSet B
  unfolding remove_index
  remove s e = remove_index s e ((s.stored e).timer_index)

  -- event_active() of src/event.c, with event_queue_insert() for EVSTATUS_ACTIVE.
  unfoldable pub event_active : EventSet B → ℕ → Mask → ℤ × EventSet B
  event_active s e res =
      let ev = s.stored e in
      if ev.status.active
      then (pos 1, with_event s e (record ev { results = mask_or ev.results res }))
      else (
        pos 0,
        record (with_event s e
            (record ev { results = res; status = record ev.status { active = true } })) {
              activelist = inserted_last e s.activelist;
            },
      )

  abbrev pub clear_timer : EventSet B → ℕ → EventSet B
  clear_timer s e =
      let ev = s.stored e in
      with_event s e (record ev { status = record ev.status { timer = false } })

  -- One round of the loop of evtimer_dispatch() on the first event of bucket `i`, and the counter: `step`
  -- is what is left of its rounds.
  unfoldable pub tick_step : ℕ → EventSet B → ℕ → ℕ → ℤ → EventSet B × ℕ
  unfolding remove event_active unlink
  tick_step i s e rc (pos (suc n)) = (
    record s {
      core_timer = record s.core_timer {
        bucket_array =
            set s.core_timer.bucket_array i (inserted_last e (unlink e (bucket s.core_timer i)));
      };
    },
    rc,
  )
  tick_step i s e rc (pos zero) =
      ((event_active (clear_timer (remove s e).1 e) e only_timeout).1, rc + 1)
  tick_step i s e rc (negsuc n) = (clear_timer (remove s e).1 e, rc)

  unfoldable pub tick : ℕ → EventSet B → ℕ → ℕ → EventSet B × ℕ
  unfolding tick_step
  tick i s e rc =
      let ev = s.stored e in
      let step = decrement ev.timer_stepcnt in
      tick_step i (with_event s e (record ev { timer_stepcnt = step })) e rc step

  -- The loop, up to the event that was the last one at its start, on fuel; `none` is TAILQ_FIRST of
  -- an empty list.
  unfoldable pub dispatch_bucket : ℕ → ℕ → ℕ → EventSet B → ℕ → Option (EventSet B × ℕ)
  unfolding tick
  dispatch_bucket i laster zero s rc = none
  dispatch_bucket i laster (suc fuel) s rc = elim (bucket s.core_timer i) [
    | [] ↦ none
    | e ∷ es ↦
        let (s', rc') = tick i s e rc in
        let more = dispatch_bucket i laster fuel s' rc' in
        if e == laster then some (s', rc') else more
  ]

  unfoldable pub dispatch : EventSet B → Option (EventSet B × ℕ)
  unfolding dispatch_bucket
  dispatch s =
      let t = s.core_timer in
      let i = wheel_index t t.dispatch_refer in
      let s' = record s { core_timer = record t { dispatch_refer = add32 t.dispatch_refer 1 } } in
      elim (bucket t i) [
        | [] ↦ some (s', 0)
        | e ∷ es ↦ dispatch_bucket i (last_of e es) (length (e ∷ es)) s' 0
      ]

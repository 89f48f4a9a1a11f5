-- ===== src/Event/Defs.antt =====
-- `struct event`, `struct evtimer` and `struct eventset` of src/event-internal.h. An event is known
-- by its address; what is stored behind it is the field `stored` of the event set. The bit fields
-- are records of their bits.
use libevlite.Base.{
  ℕ, zero, suc, Bool, true, false, ◌||◌, List, [], ◌∷◌, ◌++◌, ◌==◌, if◌then◌else◌, assign,
}
use libevlite.Base.Int.{ℤ, pos, negsuc}

-- EVSTATUS_INSERTED, _TIMER, _ACTIVE, _INTERNAL, _INIT, and whether a bit outside EVSTATUS_ALL is set.
pub record Status : Type 0 where
  pub inserted : Bool
  pub timer : Bool
  pub active : Bool
  pub internal : Bool
  pub init : Bool
  pub other : Bool

-- EV_READ, EV_WRITE, EV_TIMEOUT, EV_PERSIST.
pub record Mask : Type 0 where
  pub ev_read : Bool
  pub ev_write : Bool
  pub ev_timeout : Bool
  pub ev_persist : Bool

abbrev pub mask_or : Mask → Mask → Mask
mask_or a b = record {
  ev_read = a.ev_read || b.ev_read;
  ev_write = a.ev_write || b.ev_write;
  ev_timeout = a.ev_timeout || b.ev_timeout;
  ev_persist = a.ev_persist || b.ev_persist;
}

abbrev pub no_mask : Mask
no_mask = record { ev_read = false; ev_write = false; ev_timeout = false; ev_persist = false }

abbrev pub only_timeout : Mask
only_timeout = record no_mask { ev_timeout = true }

pub record Event : Type 0 where
  pub fd : ℤ
  pub events : Mask
  pub status : Status
  pub results : Mask
  pub timer_msecs : ℤ
  pub timer_index : ℤ
  pub timer_stepcnt : ℤ

-- The counters are int32_t, kept as their 32 bits.
pub record Timer : Type 0 where
  pub event_count : ℕ
  pub bucket_count : ℕ
  pub max_precision : ℕ
  pub dispatch_refer : ℕ
  pub bucket_array : List (List ℕ)

-- `evsets` is the state of the backend, src/epoll.c or src/kqueue.c.
pub record EventSet (B : Type 0) : Type 0 where
  pub timer_precision : ℤ
  pub expire_time : ℤ
  pub cache_current : ℤ
  pub core_timer : Timer
  pub evsets : B
  pub eventlist : List ℕ
  pub activelist : List ℕ
  pub stored : ℕ → Event

abbrev pub decrement : ℤ → ℤ
decrement (pos zero) = negsuc 0
decrement (pos (suc n)) = pos n
decrement (negsuc n) = negsuc (suc n)

-- TAILQ_REMOVE.
unfoldable pub unlink : ℕ → List ℕ → List ℕ
unlink e [] = []
unlink e (x ∷ xs) = let rest = unlink e xs in if x == e then xs else x ∷ rest

abbrev pub inserted_last : ℕ → List ℕ → List ℕ
inserted_last e xs = xs ++ e ∷ []

module _ {B : Type 0} where
  abbrev pub event_at : EventSet B → ℕ → Event
  event_at s e = s.stored e

  abbrev pub with_event : EventSet B → ℕ → Event → EventSet B
  with_event s e v = record s { stored = assign s.stored e v }

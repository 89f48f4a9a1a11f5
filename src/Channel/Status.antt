-- ===== src/Channel/Status.antt =====
-- The status of a session and the events it waits for: the functions of src/session.c on events.
use libevlite.Base.{ℕ, Bool, true, false, ◌&&◌, ◌||◌, not, if◌then◌else◌}
use libevlite.Base.Int.{ℤ, pos, negsuc, ltb_ℤ}
use libevlite.Event.Sets.{is_positive}

pub data SessionType : Type 0 where
  accept_type : SessionType
  connect_type : SessionType
  associate_type : SessionType
  shared_type : SessionType

-- Where the event set keeps an event: for its descriptor, and in the timer.
pub record Waiting : Type 0 where
  pub io : Bool
  pub timer : Bool

abbrev pub nowhere : Waiting
nowhere = record { io = false; timer = false }

abbrev pub is_in : Waiting → Bool
is_in w = w.io || w.timer

-- evsets_add() on an event that is not active: `wants` is whether it waits for reading or writing, and
-- `accepts` whether add() of the backend answers 0.
abbrev pub in_set : ℤ → Bool → Bool → ℤ → Waiting → Waiting
in_set fd wants accepts tv w = record {
  io = w.io || (is_positive fd && (wants && accepts));
  timer = not (ltb_ℤ tv (pos 0)) || w.timer;
}

-- The descriptor, the bits of `status`, the settings, the length of the send queue, and the events of the
-- session; `ended` after session_end(). `accepts_read` and `accepts_write` are whether add() of the backend
-- answers 0 for them.
pub record Client : Type 0 where
  pub type : SessionType
  pub reading : Bool
  pub writing : Bool
  pub keepaliving : Bool
  pub shutdowning : Bool
  pub exiting : Bool
  pub persist_mode : Bool
  pub timeout_msecs : ℤ
  pub keepalive_msecs : ℤ
  pub sendqueue_limit : ℤ
  pub has_reattach : Bool
  pub queue_count : ℕ
  pub fd : ℤ
  pub accepts_read : Bool
  pub accepts_write : Bool
  pub evread : Waiting
  pub evwrite : Waiting
  pub evkeepalive : Waiting
  pub ended : Bool

abbrev pub max_seconds_wait_for_shutdown : ℕ
max_seconds_wait_for_shutdown = 10000

abbrev pub try_reconnect_interval : ℕ
try_reconnect_interval = 200

unfoldable pub is_shared : SessionType → Bool
is_shared accept_type = false
is_shared connect_type = false
is_shared associate_type = false
is_shared shared_type = true

unfoldable pub is_reattch : Client → Bool
is_reattch c = elim c.type [
  | accept_type ↦ false
  | shared_type ↦ false
  | connect_type ↦ true
  | associate_type ↦ c.has_reattach
]

-- session_add_event() for EV_READ and for EV_WRITE.
unfoldable pub add_read : Client → Client
unfolding is_shared
add_read c =
    let shared = is_shared c.type in
    if not c.exiting && not c.reading
    then record c {
      evread =
          in_set (if shared then negsuc 0 else c.fd) (not shared) c.accepts_read c.timeout_msecs
            c.evread;
      reading = true;
    }
    else c

unfoldable pub add_write : Client → Client
add_write c =
    let wait_for_shutdown = if c.exiting then pos max_seconds_wait_for_shutdown else negsuc 0 in
    if c.writing then c else record c {
      evwrite = in_set c.fd true c.accepts_write wait_for_shutdown c.evwrite;
      writing = true;
    }

-- session_del_event() for EV_READ.
unfoldable pub del_read : Client → Client
del_read c = if c.reading then record c { evread = nowhere; reading = false } else c

-- session_readd_event() for EV_READ.
unfoldable pub readd_read : Client → Client
unfolding add_read
readd_read c = add_read (record c { reading = false })

unfoldable pub start_keepalive : Client → Client
start_keepalive c =
    if not (ltb_ℤ c.keepalive_msecs (pos 0)) && not c.keepaliving
    then record c {
      evkeepalive = in_set (negsuc 0) false false c.keepalive_msecs c.evkeepalive;
      keepaliving = true;
    }
    else c

-- _stop() on the events.
unfoldable pub stop : Client → Client
stop c = record c {
  evread = if c.reading then nowhere else c.evread;
  evwrite = if c.writing then nowhere else c.evwrite;
  evkeepalive = if c.keepaliving then nowhere else c.evkeepalive;
  reading = false;
  writing = false;
  keepaliving = false;
  fd = negsuc 0;
}

-- The event for writing waits in the timer until the session connects again.
abbrev pub reconnecting : Client → Client
reconnecting c = record c {
  evwrite = in_set (negsuc 0) false false (pos try_reconnect_interval) c.evwrite;
  writing = true;
}

unfoldable pub start_reconnect : Client → ℤ × Client
unfolding stop
start_reconnect c =
    if c.exiting
    then (negsuc 0, c)
    else if c.writing
    then (negsuc 1, c)
    else (pos 0, reconnecting (stop c))

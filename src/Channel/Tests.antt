-- ===== src/Channel/Tests.antt =====
-- Sending on a session (src/session.c, src/channel.c) at a small concrete input.
use libevlite.Base.{
  ◌+◌, ◌^◌, ◌==◌, if◌then◌else◌, false, occurs, ℕ_discrete, subst, sym, ℕ, ◌<◌, min, ◌-◌, true,
  Option, some, none, List, [], ◌∷◌, length, ◌≡◌, refl, ap, arith,
}
use libevlite.Base.Int.{ℤ, pos, negsuc}
use libevlite.Message.Defs.{Message, list_count}
use libevlite.Channel.Defs.{
  Store, pop_sent, Sender, Answer, wrote, concat, amount, content, same, session_send,
  channel_transmit,
}
use libevlite.Channel.Store.{queued}
use libevlite.Channel.Close.{end_queue}
use libevlite.Channel.Shared.{IsShared, finished, Freed, pop_sent-Freed, end_queue-Freed}
use libevlite.Channel.Status.{accept_type, Client, nowhere}
use libevlite.Channel.Handlers.{Service, channel_on_write, session_shutdown}
use libevlite.Channel.Progress.{settled, channel_on_write-settled}
use libevlite.Channel.Transmit.{pending, IsSending, TakesOffered, Transmitted, channel_transmit_lem}
use libevlite.Channel.Drain.{TakesSome, Drained, channel_transmit-drains}
use libevlite.Channel.Send.{Grown, TakesBytes, accepted}
use libevlite.Channel.Stream.{start, later, sends, transmits, Steps-Grown}

abbrev with_bytes : List ℕ → Message
with_bytes bs = record {
  nsuccess = 0;
  nfailure = 0;
  buffer = some bs;
  length = length bs;
  tolist = none;
}

-- Messages of three bytes; two of them are in the queue, and the first byte has been sent.
abbrev busy : Sender
busy = record {
  id = 5;
  writing = true;
  exiting = false;
  msgoffset = 1;
  sendqueue = 1 ∷ 2 ∷ [];
  stored = λ a. with_bytes (a ∷ 20 ∷ 30 ∷ []);
  wire = 1 ∷ [];
  destroyed = [];
}

-- A descriptor that takes two bytes at a time.
abbrev two_by_two : ℕ → List (List ℕ) → Answer
two_by_two t iov = wrote (min 2 (length (concat iov)))

two_by_two-TakesOffered : TakesOffered two_by_two
two_by_two-TakesOffered t iov n e = omega (arith, ap amount e)

two_by_two-TakesSome : TakesSome two_by_two
two_by_two-TakesSome t iov some_bytes = (min 2 (length (concat iov)) - 1, ap wrote (omega arith))

busy-IsSending : IsSending busy
unfolding content queued
busy-IsSending = record { whole = λ a. refl; covered = omega arith; small = omega arith }

few_left : length (pending busy) < 6
unfolding queued content
few_left = omega arith

abbrev state_of : Option (ℤ × Sender) → Sender
state_of none = busy
state_of (some (rc, s)) = s

all_sent : (state_of (channel_transmit 4 two_by_two 6 busy)).wire ≡ 1 ∷ 20 ∷ 30 ∷ 2 ∷ 20 ∷ 30 ∷ []
unfolding channel_transmit libevlite.Channel.Defs.transmit_loop
all_sent = refl

channel_transmit_lem_example :
    (rc : ℤ) × (s' : Sender) × (channel_transmit 4 two_by_two 6 busy ≡ some (rc, s'))
    × Transmitted two_by_two busy 0 rc s'
channel_transmit_lem_example =
    channel_transmit_lem 4 two_by_two two_by_two-TakesOffered 6 busy busy-IsSending few_left

channel_transmit-drains_example : Drained busy 0 (channel_transmit 4 two_by_two 6 busy)
channel_transmit-drains_example =
    channel_transmit-drains 3 two_by_two two_by_two-TakesOffered two_by_two-TakesSome 6 busy
      busy-IsSending (omega arith) few_left

one_taken : TakesBytes (wrote 1) (7 ∷ 8 ∷ 9 ∷ [])
one_taken n e = omega (arith, ap amount e)

-- A call of session_send() behind the queue, then a round of writing.
abbrev after_send : ℤ × Sender
after_send = session_send same true (wrote 1) (some 3) busy (7 ∷ 8 ∷ 9 ∷ [])

abbrev transmitted_busy : Sender
transmitted_busy = state_of (channel_transmit 4 two_by_two 20 after_send.1)

Steps-Grown_example : Grown busy (7 ∷ 8 ∷ 9 ∷ []) transmitted_busy
unfolding session_send accepted queued content channel_transmit libevlite.Channel.Defs.transmit_loop
Steps-Grown_example =
    Steps-Grown
      (later
        (later start
          (sends same (wrote 1) 3 (7 ∷ 8 ∷ 9 ∷ []) one_taken (omega arith) (omega arith) refl))
        (transmits 4 two_by_two 20 {rc = pos 8} two_by_two-TakesOffered (omega arith) refl))
      busy-IsSending

-- Message 5 has two receivers: one place in this queue, and one in another.
abbrev for_two : Store
for_two a =
    if a == 5
    then record (with_bytes (1 ∷ [])) {
      tolist = some (record { count = 2; size = 2; entries = 7 ∷ 8 ∷ [] });
    }
    else with_bytes []

abbrev another : ℕ → ℕ
another a = if a == 5 then 1 else 0

for_two-IsShared : IsShared for_two (5 ∷ []) another
unfolding list_count
for_two-IsShared = record { shares = both; word = small }
  where
    both :
        (a : ℕ)
        → finished (for_two a) + occurs a (5 ∷ []) + another a ≡ list_count (for_two a).tolist
    both a = elim (ℕ_discrete a 5) [
      | yes e ↦
          subst
            (λ x.
              finished (for_two x) + occurs x (5 ∷ []) + another x ≡ list_count (for_two x).tolist)
            (sym e) refl
      | no ne ↦
          let miss : (a == 5) ≡ false = ground arith in
          let away : (5 == a) ≡ false = ground arith in rw (miss, away) refl
    ]

    small : (a : ℕ) → list_count (for_two a).tolist < 2 ^ 32
    small a = elim (ℕ_discrete a 5) [
      | yes e ↦ subst (λ x. list_count (for_two x).tolist < 2 ^ 32) (sym e) (omega arith)
      | no ne ↦ let miss : (a == 5) ≡ false = ground arith in rw miss (omega arith)
    ]

pop_sent-Freed_example : Freed for_two (5 ∷ []) another (pop_sent for_two 1 (5 ∷ []))
pop_sent-Freed_example = pop_sent-Freed (5 ∷ []) for_two 1 another for_two-IsShared

end_queue-Freed_example :
    Freed for_two (5 ∷ []) another (end_queue for_two (5 ∷ []))
    × ((end_queue for_two (5 ∷ [])).queue ≡ [])
end_queue-Freed_example = end_queue-Freed (5 ∷ []) for_two another for_two-IsShared

-- A session that waits to read and to write, with two messages in its queue.
abbrev client : Client
client = record {
  type = accept_type;
  reading = true;
  writing = true;
  keepaliving = false;
  shutdowning = false;
  exiting = false;
  persist_mode = true;
  timeout_msecs = pos 1000;
  keepalive_msecs = negsuc 0;
  sendqueue_limit = pos 0;
  has_reattach = false;
  queue_count = 2;
  fd = pos 3;
  accepts_read = true;
  accepts_write = true;
  evread = record { io = true; timer = true };
  evwrite = record { io = true; timer = false };
  evkeepalive = nowhere;
  ended = false;
}

abbrev silent : Service
silent = record {
  process = λ c. (pos 0, c);
  timeout = λ c. (pos 0, c);
  keepalive = λ c. (pos 0, c);
  error = λ c. (pos 0, c);
  start = λ c. c;
  perform = λ c. (pos 0, c);
  shutdown = λ c. c;
}

channel_on_write-settled_example :
    settled (channel_on_write silent true (record { writen = pos 3; left = 1 }) client) ≡ true
channel_on_write-settled_example =
    channel_on_write-settled silent (λ c h. h) true (record { writen = pos 3; left = 1 }) client
      refl refl

-- The session waits to write without a timer, also when it is to end.
no_timer_for_the_end :
    let (rc, c) = session_shutdown silent client in
    (rc ≡ pos 1) × (c.exiting ≡ true) × (c.evwrite.timer ≡ false)
unfolding session_shutdown
no_timer_for_the_end = (refl, refl, refl)

-- ===== src/Thread/System.antt =====
-- One I/O thread (iothread_main(), iothread_on_command() and _process() of src/threads.c) and the threads that
-- post tasks to it, interleaved in any order. A step is a critical section of the lock, a call on the
-- descriptor of eventfd(), or one task; the loop is that of a thread that is running.
use libevlite.Base.{
  ℕ, suc, ◌-◌, ◌^◌, ◌<◌, Bool, List, [], ◌∷◌, ◌++◌, Option, none, some, ltb, if◌then◌else◌, ◌≡◌,
}
use libevlite.Base.Int.{ℤ}
use libevlite.Queue.Defs.{Queue, pop, count}
use libevlite.Thread.Defs.{Task, Call, null, call_of, is_zero, msgqueue_push, msgqueue_swap}

-- Where the thread is in its loop: waiting in evsets_dispatch(), before the swap of _process(), or in the loop
-- over the tasks.
pub data Phase : Type 0 where
  polling : Phase
  serving : Phase
  working : Phase

-- `notifying` counts the threads between the unlocking and the write() of msgqueue_push(), `counter` is that of
-- the descriptor. `calls` are those of the processor so far; `posted` the tasks whose posting answered 0, in the
-- order of the lock.
pub record System : Type 0 where
  pub queue : Queue Task
  pub doqueue : Queue Task
  pub notifying : ℕ
  pub counter : ℕ
  pub phase : Phase
  pub calls : List Call
  pub posted : List Task

-- A write of 1 to a descriptor of eventfd() adds it, unless the counter is at its maximum.
unfoldable pub write_eventfd : ℕ → ℕ
write_eventfd c = if ltb c (2 ^ 64 - 2) then suc c else c

unfoldable pub after_push : System → Task → ℤ × Bool × Queue Task → System
unfolding is_zero
after_push s task (rc, told, q) = record s {
  queue = q;
  notifying = if told then suc s.notifying else s.notifying;
  posted = if is_zero rc then s.posted ++ (task ∷ []) else s.posted;
}

-- The swap of _process().
unfoldable pub take_queue : System → System
unfolding msgqueue_swap
take_queue s =
    let (queue', doqueue') = msgqueue_swap s.queue s.doqueue in
    record s { queue = queue'; doqueue = doqueue'; phase = working }

-- The calls for what a pop has stored.
unfoldable pub calls_for : Option Task → List Call
unfolding call_of
calls_for none = []
calls_for (some t) = call_of t

-- One round of the loop of _process().
unfoldable pub work : System → System
unfolding pop count calls_for
work s =
    let popped = pop null s.doqueue in
    if ltb 0 (count s.doqueue)
    then record s { doqueue = popped.2; calls = s.calls ++ calls_for popped.1 }
    else record s { phase = polling }

pub data Step (s : System) : System → Type 0 where
  posts :
      (allocated : Bool) (task : Task)
      → s.queue.size < 2 ^ 31
      → Step s (after_push s task (msgqueue_push allocated s.queue task))
  notifies :
      (n : ℕ)
      → s.notifying ≡ suc n
      → Step s (record s { notifying = n; counter = write_eventfd s.counter })
  -- The read() of iothread_on_command() sets the counter to 0.
  wakes : s.phase ≡ polling → 0 < s.counter → Step s (record s { counter = 0; phase = serving })
  -- evsets_dispatch() returns for other events.
  returns : s.phase ≡ polling → Step s (record s { phase = serving })
  swaps : s.phase ≡ serving → Step s (take_queue s)
  works : s.phase ≡ working → Step s (work s)

-- The queues that QUEUE_INIT leaves.
abbrev pub started : Queue Task → Queue Task → System
started queue doqueue = record {
  queue = queue;
  doqueue = doqueue;
  notifying = 0;
  counter = 0;
  phase = polling;
  calls = [];
  posted = [];
}

pub data Reach (queue doqueue : Queue Task) : System → Type 0 where
  start : Reach queue doqueue (started queue doqueue)
  later : {s s' : System} → Reach queue doqueue s → Step s s' → Reach queue doqueue s'

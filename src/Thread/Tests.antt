-- ===== src/Thread/Tests.antt =====
-- The queue of tasks (src/msgqueue.c) and an I/O thread (src/threads.c) at small concrete inputs.
use libevlite.Base.{◌-◌, ◌<◌, ◌^◌, true, some, [], ◌∷◌, length, ◌≡◌, refl, arith}
use libevlite.Queue.Defs.{Queue, count}
use libevlite.Queue.Laws.{IsValid, contents}
use libevlite.Thread.Defs.{
  Task, user_task, data_task, taskdata, bytes, null, process, msgqueue_push,
}
use libevlite.Thread.Process.{calls_of, process_lem}
use libevlite.Thread.System.{
  serving, System, take_queue, work, after_push, write_eventfd, Reach, start, later, posts,
  notifies, wakes, swaps, works, started,
}
use libevlite.Thread.Wake.{IsRunning, Reach-IsRunning}
use libevlite.Thread.Order.{no_task_left}

abbrev empty_queue : Queue Task
empty_queue = record { size = 2; entries = null ∷ null ∷ []; head = 0; tail = 0 }

abbrev a_task : Task
a_task = record { type = user_task; utype = 3; payload = taskdata 99 }

abbrev other_task : Task
other_task = record { type = data_task; utype = 4; payload = bytes (1 ∷ 2 ∷ []) }

-- Two tasks, with counters that wrap.
abbrev full_queue : Queue Task
full_queue = record { size = 2; entries = other_task ∷ a_task ∷ []; head = 2 ^ 32 - 1; tail = 1 }

empty_queue-IsValid : IsValid empty_queue
empty_queue-IsValid = record {
  power = (1, omega arith, refl);
  stored = refl;
  head_word = omega arith;
  tail_word = omega arith;
  fits = omega arith;
}

full_queue-IsValid : IsValid full_queue
full_queue-IsValid = record {
  power = (1, omega arith, refl);
  stored = refl;
  head_word = omega arith;
  tail_word = omega arith;
  fits = omega arith;
}

two_tasks : count full_queue < 3
unfolding count
two_tasks = omega arith

process_lem_example :
    (last : Queue Task) × (process 3 full_queue empty_queue
      ≡ some (
        length (contents null full_queue),
        calls_of (contents null full_queue),
        empty_queue,
        last,
      ))
    × (contents null last ≡ [])
    × IsValid last
process_lem_example = process_lem 3 full_queue empty_queue full_queue-IsValid two_tasks

no_tasks : contents null empty_queue ≡ []
unfolding contents libevlite.Queue.Window.window
no_tasks = refl

-- A task is posted and announced, the thread wakes, takes the queue and works it off.
abbrev posted_once : System
posted_once =
    after_push (started empty_queue empty_queue) a_task (msgqueue_push true empty_queue a_task)

abbrev announced_once : System
announced_once = record posted_once { notifying = 0; counter = write_eventfd posted_once.counter }

abbrev at_rest : System
at_rest = work (work (take_queue (record announced_once { counter = 0; phase = serving })))

at_rest-Reach : Reach empty_queue empty_queue at_rest
unfolding msgqueue_push after_push write_eventfd take_queue work
at_rest-Reach =
    later
      (later
        (later
          (later (later (later start (posts true a_task (omega arith))) (notifies 0 refl))
            (wakes refl (omega arith)))
          (swaps refl))
        (works refl))
      (works refl)

Reach-IsRunning_example : IsRunning at_rest
Reach-IsRunning_example =
    Reach-IsRunning at_rest-Reach empty_queue-IsValid empty_queue-IsValid no_tasks no_tasks

no_task_left_example : at_rest.calls ≡ calls_of at_rest.posted
unfolding msgqueue_push after_push take_queue work
no_task_left_example =
    no_task_left at_rest-Reach empty_queue-IsValid empty_queue-IsValid no_tasks no_tasks refl refl
      refl

posted_call : at_rest.calls ≡ (3, taskdata 99) ∷ []
unfolding msgqueue_push after_push take_queue work
posted_call = refl

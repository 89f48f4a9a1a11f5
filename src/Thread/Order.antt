-- ===== src/Thread/Order.antt =====
-- An I/O thread at rest (src/msgqueue.c, src/threads.c).
use libevlite.Base.{[], ◌++◌, ◌≡◌, sym, ap, ap₂, ◌∙◌, arith, inl, inr, append-nil}
use libevlite.Queue.Defs.{Queue}
use libevlite.Queue.Laws.{IsValid, contents}
use libevlite.Thread.Defs.{Task, null}
use libevlite.Thread.Process.{calls_of}
use libevlite.Thread.System.{polling, System, Reach}
use libevlite.Thread.Wake.{Reach-IsRunning, is_working, is_serving, own_empty}

-- When the thread waits in evsets_dispatch(), the counter of the descriptor is 0 and no thread is between the
-- unlocking and the write() of msgqueue_push(), then the processor has been called for every posted task that has
-- a type, in the order of the posting: no task sleeps in the queue.
pub no_task_left :
    {queue doqueue : Queue Task} {s : System}
    → Reach queue doqueue s
    → IsValid queue
    → IsValid doqueue
    → contents null queue ≡ []
    → contents null doqueue ≡ []
    → s.phase ≡ polling
    → s.notifying ≡ 0
    → s.counter ≡ 0
    → s.calls ≡ calls_of s.posted
unfolding calls_of
no_task_left {s = s} reach v v' e e' waits quiet read_out =
    let i = Reach-IsRunning reach v v' e e' in
    let own = own_empty s i (ap is_working waits) in
    let shared : contents null s.queue ≡ [] = elim i.announced [
      | inl empty ↦ empty
      | inr (inl n) ↦ absurd (omega arith)
      | inr (inr (inl n)) ↦ absurd (omega arith)
      | inr (inr (inr serves)) ↦ absurd (ground (arith, ap is_serving (sym serves ∙ waits)))
    ] in
    sym (append-nil s.calls)
    ∙ ap (λ x. s.calls ++ x) (sym (ap₂ (λ x y. calls_of (x ++ y)) own shared))
    ∙ i.order

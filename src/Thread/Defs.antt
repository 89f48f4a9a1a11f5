-- ===== src/Thread/Defs.antt =====
-- `struct task` and the functions on the queue of `struct msgqueue` (src/msgqueue.h, src/msgqueue.c), and the
-- posting and processing of tasks in src/threads.c. Each msgqueue_ function is one critical section of the lock.
use libevlite.Base.{
  ℕ, zero, suc, Bool, true, false, ◌&&◌, Option, none, some, List, [], ◌∷◌, ◌++◌, ltb, ◌==◌,
  if◌then◌else◌,
}
use libevlite.Base.Int.{ℤ, pos, negsuc}
use libevlite.Queue.Defs.{Queue, push, pop, count, swap}

pub data TaskType : Type 0 where
  null_task : TaskType
  user_task : TaskType
  data_task : TaskType

-- The union of `struct task`: a pointer, or the bytes themselves.
pub data Payload : Type 0 where
  taskdata : ℕ → Payload
  bytes : List ℕ → Payload

pub record Task : Type 0 where
  pub type : TaskType
  pub utype : ℕ
  pub payload : Payload

-- The element that calloc() writes.
abbrev pub null : Task
null = record { type = null_task; utype = 0; payload = taskdata 0 }

unfoldable pub is_zero : ℤ → Bool
is_zero (pos zero) = true
is_zero (pos (suc n)) = false
is_zero (negsuc n) = false

-- msgqueue_push() up to the unlocking: the result, whether the consumer is to be told, and the queue.
unfoldable pub msgqueue_push : Bool → Queue Task → Task → ℤ × Bool × Queue Task
unfolding push count is_zero
msgqueue_push allocated q task =
    let (rc, pushed) = push null allocated q task in
    let isbc = count pushed in (rc, is_zero rc && isbc == 1, pushed)

unfoldable pub msgqueue_pop : Queue Task → ℤ × Option Task × Queue Task
unfolding pop
msgqueue_pop q = pop null q

-- What a pop stores.
unfoldable pub stored : Option Task → List Task
stored none = []
stored (some t) = t ∷ []

-- At most `n` tasks, up to the first that is missing: how many, and which.
unfoldable pub msgqueue_pops : Queue Task → ℕ → ℕ × List Task × Queue Task
unfolding pop is_zero stored
msgqueue_pops q zero = (0, [], q)
msgqueue_pops q (suc n) =
    let popped = pop null q in
    let rest = msgqueue_pops popped.2 n in
    if is_zero popped.0 then (0, [], popped.2) else (suc rest.0, stored popped.1 ++ rest.1, rest.2)

unfoldable pub msgqueue_swap : Queue Task → Queue Task → Queue Task × Queue Task
unfolding swap
msgqueue_swap q other = swap q other

unfoldable pub msgqueue_count : Queue Task → ℕ
unfolding count
msgqueue_count q = count q

-- The task of iothread_post(): the pointer where `size` is 0, else the bytes that it points to.
unfoldable pub make_task : TaskType → ℕ → ℕ → List ℕ → ℕ → Task
make_task type utype pointer pointed size = record {
  type = type;
  utype = utype;
  payload = if size == 0 then taskdata pointer else bytes pointed;
}

-- iothreads_post()
unfoldable pub iothreads_post :
    Bool → Bool → Queue Task → ℕ → ℕ → List ℕ → ℕ → ℤ × Bool × Queue Task
unfolding msgqueue_push make_task
iothreads_post running allocated q utype pointer pointed size =
    let type = if size == 0 then user_task else data_task in
    if running
    then msgqueue_push allocated q (make_task type utype pointer pointed size)
    else (negsuc 0, false, q)

-- A call of the processor: the type of the user, and what it is given.
abbrev pub Call : Type 0
Call = ℕ × Payload

-- What one task makes of the processor.
unfoldable pub call_of : Task → List Call
call_of t = elim t.type [
  | null_task ↦ []
  | user_task ↦ (t.utype, t.payload) ∷ []
  | data_task ↦ (t.utype, t.payload) ∷ []
]

-- A task that has been popped, and what the rest of the loop does. A pop that stores nothing leaves the
-- variable as it is, here a task of no type.
unfoldable pub process_popped :
    Option Task → Option (List Call × Queue Task) → Option (List Call × Queue Task)
unfolding call_of
process_popped t none = none
process_popped none (some (calls, last)) = some (calls, last)
process_popped (some t) (some (calls, last)) = some (call_of t ++ calls, last)

-- The loop of _process() on the queue that it has taken, on fuel.
unfoldable pub process_loop : ℕ → Queue Task → Option (List Call × Queue Task)
unfolding process_popped pop count
process_loop zero q = none
process_loop (suc fuel) q =
    let popped = pop null q in
    let rest = process_loop fuel popped.2 in
    if ltb 0 (count q) then process_popped popped.1 rest else some ([], q)

-- _process(): the number of tasks, the calls, and the two queues.
unfoldable pub process :
    ℕ → Queue Task → Queue Task → Option (ℕ × List Call × Queue Task × Queue Task)
unfolding msgqueue_swap process_loop count
process fuel queue doqueue =
    let (queue', doqueue') = msgqueue_swap queue doqueue in
    elim (process_loop fuel doqueue') [
      | none ↦ none
      | some (calls, last) ↦ some (count doqueue', calls, queue', last)
    ]

-- ===== src/Thread/Wake.antt =====
-- The invariant of a thread and its queue of tasks (src/msgqueue.c, src/threads.c).
use libevlite.Base.{
  ℕ, suc, ◌<◌, Bool, true, false, Option, List, [], ◌∷◌, ◌++◌, length, ltb, if◌then◌else◌, ◌≡◌,
  refl, sym, ap, ap₂, ◌∙◌, subst, arith, ◌⊎◌, inl, inr, append_assoc, append-nil,
}
use libevlite.Base.Int.{ℤ}
use libevlite.Queue.Defs.{Queue, count, pop}
use libevlite.Queue.Laws.{IsValid, contents, length-contents}
use libevlite.Queue.Fifo.{pop_lem}
use libevlite.Thread.Defs.{Task, null, call_of, is_zero, msgqueue_push, msgqueue_swap}
use libevlite.Thread.Process.{calls_of, calls_of-append}
use libevlite.Thread.Push.{Pushed, msgqueue_push-Pushed}
use libevlite.Thread.System.{
  Phase, polling, serving, working, System, write_eventfd, after_push, take_queue, calls_for, work,
  Step, posts, notifies, wakes, returns, swaps, works, Reach, start, later,
}

-- What the thread still has to do.
abbrev pub waiting : System → List Task
waiting s = contents null s.doqueue ++ contents null s.queue

-- Tasks in the shared queue are announced, or the thread is about to take them.
abbrev pub Announced : System → Type 0
Announced s =
    (contents null s.queue ≡ []) ⊎ ((0 < s.notifying) ⊎ ((0 < s.counter) ⊎ (s.phase ≡ serving)))

pub record IsRunning (s : System) : Type 0 where
  pub shared : IsValid s.queue
  pub own : IsValid s.doqueue
  pub idle : (s.phase ≡ working) ⊎ (contents null s.doqueue ≡ [])
  pub announced : Announced s
  pub order : s.calls ++ calls_of (waiting s) ≡ calls_of s.posted

-- A longer list is not empty.
not_empty : {A : Type 0} (xs : List A) → 0 < length xs → (xs ≡ []) → {B : Type 0} → B
not_empty xs h e = absurd (omega (arith, ap length e))

after_push-IsRunning :
    (s : System) (t : Task) (r : ℤ × Bool × Queue Task)
    → IsRunning s
    → Pushed s.queue t r
    → IsRunning (after_push s t r)
unfolding after_push is_zero
after_push-IsRunning s t (rc, told, q) i (inr same) =
    subst (λ r. IsRunning (after_push s t r)) (sym same) i
after_push-IsRunning s t (rc, told, q) i (inl (e, c, v, b)) =
    let own = contents null s.doqueue in
    let queue = contents null s.queue in
    let grown : calls_of (own ++ (queue ++ (t ∷ []))) ≡ calls_of (waiting s) ++ calls_of (t ∷ []) =
      ap calls_of (sym (append_assoc own queue (t ∷ []))) ∙ calls_of-append (waiting s) (t ∷ []) in
    record {
      shared = v;
      own = i.own;
      idle = i.idle;
      announced = elim b [
        | inl tells ↦ inr (
            inl (
              subst (λ c. 0 < (if c then suc s.notifying else s.notifying)) (sym tells)
                (omega arith)))
        | inr others ↦ elim i.announced [
          | inl empty ↦ not_empty (contents null s.queue) others empty
          | inr (inl n) ↦ inr (inl (ground arith))
          | inr (inr rest) ↦ inr (inr rest)
        ]
      ];
      order =
          ap (λ x. s.calls ++ calls_of (own ++ x)) c
          ∙ ap (λ x. s.calls ++ x) grown
          ∙ sym (append_assoc s.calls (calls_of (waiting s)) (calls_of (t ∷ [])))
          ∙ ap (λ x. x ++ calls_of (t ∷ [])) i.order
          ∙ sym (calls_of-append s.posted (t ∷ []))
          ∙ ap (λ z. calls_of (if is_zero z then s.posted ++ (t ∷ []) else s.posted)) (sym e);
    }

notifies-IsRunning :
    (s : System) (n : ℕ)
    → IsRunning s
    → IsRunning (record s { notifying = n; counter = write_eventfd s.counter })
unfolding write_eventfd
notifies-IsRunning s n i = record {
  shared = i.shared;
  own = i.own;
  idle = i.idle;
  announced = inr (inr (inl (ground arith)));
  order = i.order;
}

abbrev pub is_working : Phase → Bool
is_working polling = false
is_working serving = false
is_working working = true

abbrev pub is_serving : Phase → Bool
is_serving polling = false
is_serving serving = true
is_serving working = false

-- Outside the loop over the tasks the own queue is empty.
pub own_empty :
    (s : System) → IsRunning s → is_working s.phase ≡ false → contents null s.doqueue ≡ []
own_empty s i rests = elim i.idle [
  | inl works_now ↦ absurd (ground (arith, ap is_working works_now))
  | inr empty ↦ empty
]

-- The thread leaves evsets_dispatch().
serving-IsRunning :
    (s : System) (n : ℕ)
    → IsRunning s
    → s.phase ≡ polling
    → IsRunning (record s { counter = n; phase = serving })
serving-IsRunning s n i e = record {
  shared = i.shared;
  own = i.own;
  idle = inr (own_empty s i (ap is_working e));
  announced = inr (inr (inr refl));
  order = i.order;
}

take_queue-IsRunning : (s : System) → IsRunning s → s.phase ≡ serving → IsRunning (take_queue s)
unfolding take_queue msgqueue_swap
take_queue-IsRunning s i e =
    let none_own = own_empty s i (ap is_working e) in
    record {
      shared = i.own;
      own = i.shared;
      idle = inl refl;
      announced = inl none_own;
      order =
          ap (λ x. s.calls ++ calls_of (contents null s.queue ++ x)) none_own
          ∙ ap (λ x. s.calls ++ calls_of x)
              (append-nil (contents null s.queue)
                ∙ ap (λ x. x ++ contents null s.queue) (sym none_own))
          ∙ i.order;
    }

work-IsRunning : (s : System) → IsRunning s → s.phase ≡ working → IsRunning (work s)
unfolding work calls_for calls_of
work-IsRunning s i e =
    let choice : Bool → ℤ × Option Task × Queue Task → System = λ b popped.
      if b
      then record s { doqueue = popped.2; calls = s.calls ++ calls_for popped.1 }
      else record s { phase = polling } in
    let size = length-contents null s.doqueue in
    elim (pop_lem null s.doqueue i.own) [
      | inl (empty, p) ↦
          let len = ap length empty in
          let over : ltb 0 (count s.doqueue) ≡ false = ground arith in
          subst (λ b. IsRunning (choice b (pop null s.doqueue))) (sym over)
            (record {
              shared = i.shared;
              own = i.own;
              idle = inr empty;
              announced = elim i.announced [
                | inl none_left ↦ inl none_left
                | inr (inl n) ↦ inr (inl n)
                | inr (inr (inl n)) ↦ inr (inr (inl n))
                | inr (inr (inr serves)) ↦ absurd (ground (arith, ap is_working (sym serves ∙ e)))
              ];
              order = i.order;
            })
      | inr (x, r, p, c, v) ↦
          let len = ap length c in
          let size' = length-contents null r in
          let more : ltb 0 (count s.doqueue) ≡ true = ground arith in
          subst (λ b. IsRunning (choice b (pop null s.doqueue))) (sym more)
            (subst (λ popped. IsRunning (choice true popped)) (sym p)
              (record {
                shared = i.shared;
                own = v;
                idle = inl e;
                announced = i.announced;
                order =
                    append_assoc s.calls (call_of x)
                      (calls_of (contents null r ++ contents null s.queue))
                    ∙ ap (λ q. s.calls ++ calls_of (q ++ contents null s.queue)) (sym c)
                    ∙ i.order;
              }))
    ]

Step-IsRunning : {s s' : System} → Step s s' → IsRunning s → IsRunning s'
Step-IsRunning {s = s} (posts allocated t small) i =
    after_push-IsRunning s t (msgqueue_push allocated s.queue t) i
      (msgqueue_push-Pushed allocated s.queue t i.shared small)
Step-IsRunning {s = s} (notifies n e) i = notifies-IsRunning s n i
Step-IsRunning {s = s} (wakes e h) i = serving-IsRunning s 0 i e
Step-IsRunning {s = s} (returns e) i = serving-IsRunning s s.counter i e
Step-IsRunning {s = s} (swaps e) i = take_queue-IsRunning s i e
Step-IsRunning {s = s} (works e) i = work-IsRunning s i e

-- In every state that a thread with empty valid queues reaches, in any interleaving with the threads that post:
-- the two queues are valid; while there are tasks in the shared queue, a thread is about to write to the
-- descriptor, or its counter is above 0, or the I/O thread is about to take the queue; and the calls of the
-- processor, followed by those for the tasks in the two queues, are those for the posted tasks, in the order of
-- the posting.
pub Reach-IsRunning :
    {queue doqueue : Queue Task} {s : System}
    → Reach queue doqueue s
    → IsValid queue
    → IsValid doqueue
    → contents null queue ≡ []
    → contents null doqueue ≡ []
    → IsRunning s
unfolding calls_of
Reach-IsRunning start v v' e e' = record {
  shared = v;
  own = v';
  idle = inr e';
  announced = inl e;
  order = ap₂ (λ x y. calls_of (x ++ y)) e' e;
}
Reach-IsRunning (later steps step) v v' e e' = Step-IsRunning step (Reach-IsRunning steps v v' e e')

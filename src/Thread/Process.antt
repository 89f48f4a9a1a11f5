-- ===== src/Thread/Process.antt =====
-- _process() of src/threads.c, and the queue of tasks of src/msgqueue.c, on valid queues.
use libevlite.Base.{
  ℕ, zero, suc, ◌<◌, min, Bool, true, false, Option, none, some, List, [], ◌∷◌, ◌++◌, length, take,
  drop, ltb, if◌then◌else◌, ◌≡◌, refl, sym, ap, ap₂, ◌∙◌, subst, arith, inl, inr, append_assoc,
}
use libevlite.Base.Int.{ℤ}
use libevlite.Queue.Defs.{Queue, count, pop}
use libevlite.Queue.Laws.{IsValid, contents, length-contents}
use libevlite.Queue.Fifo.{pop_lem}
use libevlite.Thread.Defs.{
  Task, Call, null, call_of, process_popped, process_loop, process, msgqueue_pops, msgqueue_swap,
  is_zero, stored,
}

-- The calls that a list of tasks makes.
unfoldable pub calls_of : List Task → List Call
unfolding call_of
calls_of [] = []
calls_of (t ∷ ts) = call_of t ++ calls_of ts

pub calls_of-append : (ts us : List Task) → calls_of (ts ++ us) ≡ calls_of ts ++ calls_of us
unfolding calls_of
calls_of-append [] us = refl
calls_of-append (t ∷ ts) us =
    ap (λ r. call_of t ++ r) (calls_of-append ts us)
    ∙ sym (append_assoc (call_of t) (calls_of ts) (calls_of us))

abbrev pub Emptied : Queue Task → Type 0
Emptied q = (contents null q ≡ []) × IsValid q

process_loop_lem :
    (fuel : ℕ) (q : Queue Task)
    → IsValid q
    → count q < fuel
    → (last : Queue Task) × (process_loop fuel q ≡ some (calls_of (contents null q), last))
      × Emptied last
unfolding process_loop process_popped calls_of
process_loop_lem zero q v f = absurd (omega arith)
process_loop_lem (suc fuel) q v f =
    let choice : Bool → ℤ × Option Task × Queue Task → Option (List Call × Queue Task) = λ b popped.
      if b then process_popped popped.1 (process_loop fuel popped.2) else some ([], q) in
    let size = length-contents null q in
    elim (pop_lem null q v) [
      | inl (e, p) ↦
          let len = ap length e in
          let over : ltb 0 (count q) ≡ false = ground arith in
          (
            q,
            ap (λ b. choice b (pop null q)) over ∙ ap (λ ts. some (calls_of ts, q)) (sym e),
            (e, v),
          )
      | inr (x, r, p, c, v') ↦
          let size' = length-contents null r in
          let len = ap length c in
          let more : ltb 0 (count q) ≡ true = ground arith in
          let (last, e, emptied) = process_loop_lem fuel r v' (omega arith) in
          (
            last,
            ap₂ choice more p
                ∙ ap (process_popped (some x)) e
                ∙ ap (λ ts. some (calls_of ts, last)) (sym c),
            emptied,
          )
    ]

-- _process() of valid queues, with fuel above the number of tasks, ends. It calls the processor for every task
-- of the queue, in order, and answers their number; the thread's own queue, empty before, is empty after, and
-- the shared one is the former own one.
pub process_lem :
    (fuel : ℕ) (queue doqueue : Queue Task)
    → IsValid queue
    → count queue < fuel
    → (last : Queue Task) × (process fuel queue doqueue
        ≡ some (length (contents null queue), calls_of (contents null queue), doqueue, last))
      × (contents null last ≡ [])
      × IsValid last
unfolding process msgqueue_swap
process_lem fuel queue doqueue v f =
    let (last, e, emptied) = process_loop_lem fuel queue v f in
    let answer : Option (List Call × Queue Task)
        → Option (ℕ × List Call × Queue Task × Queue Task) =
      λ o. elim o [ none ↦ none | some (calls, rest) ↦ some (count queue, calls, doqueue, rest) ] in
    (
      last,
      ap answer e
          ∙ ap (λ n. some (n, calls_of (contents null queue), doqueue, last))
              (sym (length-contents null queue)),
      emptied.0,
      emptied.1,
    )

-- msgqueue_pops() of a valid queue takes the first `n` tasks, or all if there are fewer, in order, answers how
-- many they are, and leaves the others.
pub msgqueue_pops_lem :
    (n : ℕ) (q : Queue Task)
    → IsValid q
    → let (i, ts, r) = msgqueue_pops q n in
      (i ≡ min n (length (contents null q)))
      × (ts ≡ take n (contents null q))
      × (contents null r ≡ drop n (contents null q))
      × IsValid r
unfolding msgqueue_pops is_zero stored
msgqueue_pops_lem zero q v = (omega arith, refl, refl, v)
msgqueue_pops_lem (suc n) q v =
    let finish : ℤ × Option Task × Queue Task → ℕ × List Task × Queue Task = λ popped.
      let rest = msgqueue_pops popped.2 n in
      if is_zero popped.0
      then (0, [], popped.2)
      else (suc rest.0, stored popped.1 ++ rest.1, rest.2) in
    let Good : ℕ × List Task × Queue Task → Type 0 = λ r.
      (r.0 ≡ min (suc n) (length (contents null q)))
      × (r.1 ≡ take (suc n) (contents null q))
      × (contents null r.2 ≡ drop (suc n) (contents null q))
      × IsValid r.2 in
    elim (pop_lem null q v) [
      | inl (e, p) ↦
          subst (λ popped. Good (finish popped)) (sym p)
            (
              omega (arith, ap length e),
              ap (take (suc n)) (sym e),
              e ∙ ap (drop (suc n)) (sym e),
              v,
            )
      | inr (x, r, p, c, v') ↦
          let (count_n, front, back, valid) = msgqueue_pops_lem n r v' in
          subst (λ popped. Good (finish popped)) (sym p)
            (
              omega (arith, ap length c),
              ap (λ ts. x ∷ ts) front ∙ ap (take (suc n)) (sym c),
              back ∙ ap (drop (suc n)) (sym c),
              valid,
            )
    ]

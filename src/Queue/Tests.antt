-- ===== src/Queue/Tests.antt =====
-- The ring queue (src/queue.h) at small concrete inputs.
use libevlite.Base.{ℕ, ◌+◌, ◌-◌, ◌^◌, ◌<◌, ◌≡◌, refl, [], ◌∷◌, arith, length}
use libevlite.Queue.Defs.{Queue, count}
use libevlite.Queue.Laws.{IsPowerOfTwo, IsValid, contents}
use libevlite.Queue.Run.{enqueue, dequeue, run, run_list, run_refines}

-- A full queue whose counters are about to wrap: 10 at position 2 ^ 32 - 1, then 11.
abbrev wrapping : Queue ℕ
wrapping = record { size = 2; entries = 11 ∷ 10 ∷ []; head = 2 ^ 32 - 1; tail = 1 }

two-IsPowerOfTwo : IsPowerOfTwo 2
two-IsPowerOfTwo = (1, omega arith, refl)

wrapping-IsValid : IsValid wrapping
wrapping-IsValid = record {
  power = two-IsPowerOfTwo;
  stored = refl;
  head_word = omega arith;
  tail_word = omega arith;
  fits = omega arith;
}

wrapping-contents : contents 0 wrapping ≡ 10 ∷ 11 ∷ []
unfolding contents libevlite.Queue.Window.window
wrapping-contents = refl

wrapping_full : count wrapping ≡ 2
unfolding count
wrapping_full = refl

few_calls : length (contents 0 wrapping) + 3 < 2 ^ 31
unfolding contents libevlite.Queue.Window.window
few_calls = omega arith

run_refines_example :
    run 0 wrapping (enqueue 12 ∷ dequeue ∷ dequeue ∷ [])
    ≡ run_list (contents 0 wrapping) (enqueue 12 ∷ dequeue ∷ dequeue ∷ [])
run_refines_example =
    run_refines 0 (enqueue 12 ∷ dequeue ∷ dequeue ∷ []) wrapping wrapping-IsValid few_calls

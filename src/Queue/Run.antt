-- ===== src/Queue/Run.antt =====
-- Whole histories of a ring queue (src/queue.h), and the calls that make, shrink and empty one.
use native.Mathlib.Nat.{mod_self}
use libevlite.Base.{
  ℕ, ◌+◌, ◌^◌, ◌≤◌, ◌<◌, ◌≡◌, refl, sym, ap, ap₂, ◌∙◌, List, [], ◌∷◌, ◌++◌, length, arith, dec_lt,
  Option, none, some, Bool, true, false, ◌⊎◌, inl, inr, leb, not, ◌||◌, Bool-cases, ◌==◌,
  length-append, length-take, length-replicate, take, replicate, length-take,
}
use libevlite.Base.Int.{ℤ, pos}
use libevlite.Base.Words.{sub32}
use libevlite.Base.Bits.{bit_and-mask, pow_pos}
use libevlite.Queue.Defs.{Queue, slot, count, init, push, pop, shrink, is_null}
use libevlite.Queue.Laws.{IsValid, IsPowerOfTwo, contents, length-contents, power_pos}
use libevlite.Queue.Fifo.{push_lem, pop_lem, contents-none}

-- What a client asks of a queue.
pub data Op {ℓ} (A : Type ℓ) : Type ℓ where
  enqueue : A → Op A
  dequeue : Op A

-- The result code, and what a pop stores.
abbrev pub Reply {ℓ} : Type ℓ → Type ℓ
Reply A = ℤ × Option A

module _ {ℓ} {A : Type ℓ} where
  -- The queue as a list, oldest first: the specification.
  unfoldable pub run_list : List A → List (Op A) → List (Reply A)
  run_list xs [] = []
  run_list xs (enqueue x ∷ ops) = (pos 0, none) ∷ run_list (xs ++ x ∷ []) ops
  run_list [] (dequeue ∷ ops) = (pos 0, none) ∷ run_list [] ops
  run_list (x ∷ xs) (dequeue ∷ ops) = (pos 1, some x) ∷ run_list xs ops

module _ {ℓ} {A : Type ℓ} (null : A) where
  unfoldable pub run : Queue A → List (Op A) → List (Reply A)
  run q [] = []
  run q (enqueue x ∷ ops) = let (rc, r) = push null true q x in (rc, none) ∷ run r ops
  run q (dequeue ∷ ops) = let (rc, out, r) = pop null q in (rc, out) ∷ run r ops

  able :
      (q : Queue A)
      → length (contents null q) < 2 ^ 31
      → (count q < q.size) ⊎ ((true ≡ true) × (q.size < 2 ^ 31))
  able q h = elim (dec_lt (count q) q.size) [
    | yes room ↦ inl room
    | no full ↦ inr (refl, omega (arith, length-contents null q))
  ]

  -- No history of pushes and pops tells a valid ring from the first-in first-out list of its elements,
  -- while the elements and the calls left are fewer than 2 ^ 31 and no allocation fails. The ring
  -- may grow and its counters may wrap on the way.
  pub run_refines :
      (ops : List (Op A)) (q : Queue A)
      → IsValid q
      → length (contents null q) + length ops < 2 ^ 31
      → run q ops ≡ run_list (contents null q) ops
  unfolding run run_list
  run_refines [] q v lt = refl
  run_refines (enqueue x ∷ ops) q v lt =
      let (done, now, valid) = push_lem null q x true v (able q (omega arith)) in
      ap₂ (λ rc rest. (rc, none) ∷ rest) done
        (run_refines ops (push null true q x).1 valid
            (omega (arith, ap length now, length-append (contents null q) (x ∷ [])))
          ∙ ap (λ xs. run_list xs ops) now)
  run_refines (dequeue ∷ ops) q v lt = elim (pop_lem null q v) [
    | inl (empty, e) ↦
        rw (e, empty)
          (ap (λ rest. (pos 0, none) ∷ rest)
            (run_refines ops q v (omega arith) ∙ ap (λ xs. run_list xs ops) empty))
    | inr (x, r, e, split, valid) ↦
        rw (e, split)
          (ap (λ rest. (pos 1, some x) ∷ rest)
            (run_refines ops r valid (omega (arith, ap length split))))
  ]

  -- QUEUE_INIT at a power of two up to 2 ^ 31 passes its assertion, and with memory reports 0 and
  -- gives a valid empty queue of that size.
  pub init_lem :
      (k : ℕ)
      → k ≤ 31
      → (q : Queue A) × (init null true (2 ^ k) ≡ some (pos 0, q))
        × IsValid q
        × (q.size ≡ 2 ^ k)
        × (contents null q ≡ [])
  unfolding init
  init_lem k h =
      let positive = pow_pos k in
      let nonzero : (2 ^ k == 0) ≡ false = ground arith in
      let mask : slot (2 ^ k) (2 ^ k) ≡ 0 = bit_and-mask (2 ^ k) k ∙ mod_self (2 ^ k) in
      (
        record { size = 2 ^ k; entries = replicate (2 ^ k) null; head = 0; tail = 0 },
        rw (nonzero, mask),
        record {
          power = (k, h, refl);
          stored = length-replicate (2 ^ k) null;
          head_word = omega arith;
          tail_word = omega arith;
          fits = omega arith;
        },
        refl,
        contents-none null _ refl,
      )

  -- The condition under which QUEUE_SHRINK leaves the queue alone.
  abbrev stays : Queue A → ℕ → Bool
  stays q size = is_null q.entries || leb q.size size || not (count q == 0)

  shrunk :
      (q : Queue A) (size : ℕ)
      → IsValid q
      → IsPowerOfTwo size
      → stays q size ≡ false
      → let r : Queue A = record {
        size = size;
        entries = take size q.entries;
        head = 0;
        tail = 0;
      } in
        IsValid r × (contents null r ≡ contents null q)
  unfolding count
  shrunk q size v power moves =
      let positive = power_pos power in
      let empty : sub32 q.tail q.head ≡ 0 = ground arith in
      let smaller : size < q.size = ground arith in
      (
        record {
          power = power;
          stored = omega (arith, length-take size q.entries, v.stored);
          head_word = omega arith;
          tail_word = omega arith;
          fits = omega arith;
        },
        contents-none null _ refl ∙ sym (contents-none null q empty),
      )

  -- QUEUE_SHRINK of a valid queue to a power of two keeps the invariant and the elements, whatever realloc() answers.
  pub shrink_lem :
      (q : Queue A) (size : ℕ) (allocated : Bool)
      → IsValid q
      → IsPowerOfTwo size
      → IsValid (shrink allocated q size).1
        × (contents null (shrink allocated q size).1 ≡ contents null q)
  unfolding shrink
  shrink_lem q size allocated v power = elim (Bool-cases (stays q size)) [
    | inl keep ↦ rw keep (v, refl)
    | inr moves ↦ elim (Bool-cases allocated) [
      | inl yes_memory ↦ rw (moves, yes_memory) (shrunk q size v power moves)
      | inr no_memory ↦ rw (moves, no_memory) (v, refl)
    ]
  ]

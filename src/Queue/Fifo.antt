-- ===== src/Queue/Fifo.antt =====
-- The functions of QUEUE_GENERATE (src/queue.h) against a first-in first-out list.
use libevlite.Base.{
  ℕ, suc, ◌+◌, ◌%◌, ◌^◌, ◌<◌, ◌≡◌, refl, sym, ap, ◌∙◌, [], ◌∷◌, ◌++◌, get_or, get_elem?, arith,
  dec_lt, Option, none, some, Bool, true, false, ◌⊎◌, inl, inr, Bool-cases, ◌==◌, lt→ltb,
  get_elem?-eq-get_or, get_elem?_above,
}
use libevlite.Base.Int.{ℤ, pos, negsuc}
use libevlite.Base.Words.{u32_mod, add32, sub32}
use libevlite.Queue.Defs.{Queue, slot, count, grow, put, push, pop, get}
use libevlite.Queue.Laws.{
  IsValid, contents, length-contents, put-IsValid, contents-put, full_test, grow-IsValid,
  contents-grow, count_le, room-grow, slot-mod, wrap-mod,
}
use libevlite.Queue.Window.{window, window_shift, window-get}

-- The counter that QUEUE_POP steps.
head_step :
    (t h : ℕ) → t < u32_mod → h < u32_mod → 0 < sub32 t h → sub32 t h ≡ suc (sub32 t (add32 h 1))
head_step t h p q lt = omega arith

module _ {ℓ} {A : Type ℓ} (null : A) where
  push_room :
      (q : Queue A) (x : A) (allocated : Bool)
      → IsValid q
      → count q < q.size
      → push null allocated q x ≡ (pos 0, put x q)
  unfolding push
  push_room q x allocated v lt = elim (Bool-cases (sub32 (add32 q.size q.head) q.tail == 0)) [
    | inl full ↦ absurd (omega (arith, (full_test null q v).0 full))
    | inr room ↦ rw room
  ]

  push_full :
      (q : Queue A) (x : A)
      → IsValid q
      → count q ≡ q.size
      → push null true q x ≡ (pos 0, put x (grow null true q).1)
  unfolding push grow
  push_full q x v full = rw ((full_test null q v).1 full)

  -- On a full valid queue whose array cannot be enlarged QUEUE_PUSH reports -1 and changes nothing.
  pub push_failed :
      (q : Queue A) (x : A) → IsValid q → count q ≡ q.size → push null false q x ≡ (negsuc 0, q)
  unfolding push grow
  push_failed q x v full = rw ((full_test null q v).1 full)

  must_grow :
      (q : Queue A) (allocated : Bool)
      → (count q < q.size) ⊎ ((allocated ≡ true) × (q.size < 2 ^ 31))
      → ¬ (count q < q.size)
      → (allocated ≡ true) × (q.size < 2 ^ 31)
  must_grow q allocated (inl room) no_room = absurd (no_room room)
  must_grow q allocated (inr able) no_room = able

  -- QUEUE_PUSH on a valid queue, when there is room, or the allocation of QUEUE_GROW succeeds and the
  -- size can still be doubled, reports 0, appends the
  -- element behind all others and keeps the invariant.
  pub push_lem :
      (q : Queue A) (x : A) (allocated : Bool)
      → IsValid q
      → (count q < q.size) ⊎ ((allocated ≡ true) × (q.size < 2 ^ 31))
      → ((push null allocated q x).0 ≡ pos 0)
        × (contents null (push null allocated q x).1 ≡ contents null q ++ x ∷ [])
        × IsValid (push null allocated q x).1
  push_lem q x allocated v able = elim (dec_lt (count q) q.size) [
    | yes room ↦
        rw (push_room q x allocated v room)
          (refl, contents-put null q x v room, put-IsValid null q x v room)
    | no more ↦
        let full : count q ≡ q.size = omega (arith, count_le null q v) in
        let (granted, lt) = must_grow q allocated able more in
        let g = grow-IsValid null q v lt in
        let room = room-grow null q v lt in
        rw (granted, push_full q x v full)
          (
            refl,
            contents-put null (grow null true q).1 x g room
                ∙ ap (λ c. c ++ x ∷ []) (contents-grow null q v lt),
            put-IsValid null (grow null true q).1 x g room,
          )
  ]

  -- The queue after a successful QUEUE_POP.
  abbrev popped : Queue A → Queue A
  popped q = record q { head = add32 q.head 1 }

  contents-popped :
      (q : Queue A)
      → IsValid q
      → 0 < sub32 q.tail q.head
      → contents null q ≡ get_or q.entries (slot q.size q.head) null ∷ contents null (popped q)
  unfolding contents window
  contents-popped q v lt =
      rw (head_step q.tail q.head v.tail_word v.head_word lt, slot-mod q.head v.power)
        (ap (λ rest. get_or q.entries (q.head % q.size) null ∷ rest)
          (window_shift null q.entries q.size (q.head + 1) (add32 q.head 1) _
            (sym (wrap-mod (q.head + 1) v.power))))

  popped-IsValid : (q : Queue A) → IsValid q → 0 < sub32 q.tail q.head → IsValid (popped q)
  popped-IsValid q v lt = record {
    power = v.power;
    stored = v.stored;
    head_word = omega arith;
    tail_word = v.tail_word;
    fits = omega (arith, v.fits, head_step q.tail q.head v.tail_word v.head_word lt);
  }

  pub contents-none : (q : Queue A) → sub32 q.tail q.head ≡ 0 → contents null q ≡ []
  unfolding contents window
  contents-none q e = rw e

  -- QUEUE_POP on a valid queue returns 1 with the oldest element and leaves the others in order, or, on the empty
  -- queue, 0 with nothing stored and the queue as it was. It keeps the invariant.
  pub pop_lem :
      (q : Queue A)
      → IsValid q
      → ((contents null q ≡ []) × (pop null q ≡ (pos 0, none, q)))
        ⊎ ((x : A) × (r : Queue A) × (pop null q ≡ (pos 1, some x, r))
            × (contents null q ≡ x ∷ contents null r)
            × IsValid r)
  unfolding pop count
  pop_lem q v = elim (dec_lt 0 (sub32 q.tail q.head)) [
    | yes h ↦ inr (
      get_or q.entries (slot q.size q.head) null,
      popped q,
      rw (lt→ltb 0 (sub32 q.tail q.head) h),
      contents-popped q v h,
      popped-IsValid q v h,
    )
    | no h ↦ inl (contents-none q (omega arith), ground arith)
  ]

  element :
      (q : Queue A) (i : ℕ)
      → IsValid q
      → i < sub32 q.tail q.head
      → get_or q.entries (slot q.size (add32 q.head i)) null ≡ get_or (contents null q) i null
  unfolding contents
  element q i v h =
      ap (λ k. get_or q.entries k null)
        (slot-mod (add32 q.head i) v.power ∙ wrap-mod (q.head + i) v.power)
      ∙ sym (window-get null q.entries q.size q.head (sub32 q.tail q.head) i h)

  -- What QUEUE_GET answers for the element at a position, or for none.
  abbrev pub answer : Option A → ℤ × Option A
  answer (some x) = (pos 0, some x)
  answer none = (negsuc 0, none)

  -- QUEUE_GET on a valid queue reads the element at a position, counted from the oldest, and reports 0; past the end
  -- it reads nothing and reports -1.
  pub get_lem :
      (q : Queue A) (i : ℕ) → IsValid q → get null q i ≡ answer (get_elem? (contents null q) i)
  unfolding get count
  get_lem q i v = elim (dec_lt i (sub32 q.tail q.head)) [
    | yes h ↦ rw (
      lt→ltb i (sub32 q.tail q.head) h,
      get_elem?-eq-get_or (contents null q) i null (omega (arith, length-contents null q)),
      element q i v h,
    )
    | no h ↦
        rw (get_elem?_above (contents null q) i (omega (arith, length-contents null q)))
          (ground arith)
  ]

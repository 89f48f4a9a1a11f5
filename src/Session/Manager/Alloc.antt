-- ===== src/Session/Manager/Alloc.antt =====
-- session_manager_alloc() and _session_manager_expand() of src/session.c, on every branch.
use libevlite.Base.{
  ℕ, zero, suc, ◌+◌, ◌-◌, ◌*◌, ◌%◌, ◌≤◌, ◌<◌, ◌≡◌, ◌≢◌, ◌⊎◌, inl, inr, refl, sym, subst, ap, ◌∙◌,
  List, [], ◌∷◌, ◌++◌, length, get_or, arith, Bool, true, false, Option, none, some, length-append,
  ltb, leb, ◌==◌, if◌then◌else◌, dec_lt,
}
use libevlite.Base.Int.{pos, negsuc}
use libevlite.Base.Words.{u32_mod}
use libevlite.Session.Sid.{invalid_slot_index, max_slot_capacity}
use libevlite.Session.Manager.Defs.{
  Slot, Manager, Pool, no_slot, slot_at, link_slots, expand, take_slot, take_new, take_expanded,
  alloc, get,
}
use libevlite.Session.Manager.FreeList.{
  range, length-range, range-Distinct, length-link_slots, link_slots-Chain,
}
use libevlite.Session.Manager.Invariant.{
  IsValid, IsLive, active_count-append, active_count-link_slots, get_live, link_slots-idle,
}
use libevlite.Session.Manager.Take.{
  taken, slot-taken_self, IsLive-taken, counted-taken, taken-IsValid,
}

-- The manager with `n` more slots.
abbrev pub longer : Manager → ℕ → Manager
longer m n = record m {
  table = m.table ++ link_slots m.capacity n;
  capacity = m.capacity + n;
  free_head = m.capacity;
}

before : (t u : List Slot) (i : ℕ) → i < length t → get_or (t ++ u) i no_slot ≡ get_or t i no_slot
before [] u i lt = absurd (omega arith)
before (x ∷ t) u zero lt = refl
before (x ∷ t) u (suc i) lt = before t u i (omega arith)

behind :
    (t : List Slot) (c n i : ℕ)
    → length t ≤ i
    → ((get_or (t ++ link_slots c n) i no_slot).is_active ≡ false)
      × ((get_or (t ++ link_slots c n) i no_slot).version ≡ 0)
behind [] c n i ge = link_slots-idle c n i
behind (x ∷ t) c n zero ge = absurd (omega arith)
behind (x ∷ t) c n (suc i) ge = behind t c n i (omega arith)

true-ne-false : true ≢ false
true-ne-false x = cc

pub slot-longer :
    (m : Manager) (n i : ℕ) → i < length m.table → slot_at (longer m n) i ≡ slot_at m i
slot-longer m n i lt = before m.table (link_slots m.capacity n) i lt

new_slot :
    (m : Manager) (n i : ℕ)
    → length m.table ≤ i
    → ((slot_at (longer m n) i).is_active ≡ false) × ((slot_at (longer m n) i).version ≡ 0)
new_slot m n i ge = behind m.table m.capacity n i ge

pub longer-IsValid :
    (w : Pool) (n : ℕ)
    → IsValid [] w
    → 0 < n
    → w.manager.capacity + n ≤ max_slot_capacity
    → IsValid (range w.manager.capacity n) (record w { manager = longer w.manager n })
longer-IsValid w zero v h fits = absurd (omega arith)
longer-IsValid w (suc n) v h fits = record {
  stored = omega (
    arith,
    length-append w.manager.table (link_slots w.manager.capacity (suc n)),
    length-link_slots w.manager.capacity (suc n),
    v.stored,
  );
  index_small = v.index_small;
  positive = omega arith;
  small = fits;
  versions = λ i. elim (dec_lt i (length w.manager.table)) [
    | yes lt ↦ rw (slot-longer w.manager (suc n) i lt) (v.versions i)
    | no ge ↦ omega (arith, (new_slot w.manager (suc n) i (omega arith)).1)
  ];
  chain = link_slots-Chain w.manager.table w.manager.capacity n v.stored;
  distinct = range-Distinct w.manager.capacity (suc n);
  counted = omega (
    arith,
    v.counted,
    active_count-append w.manager.table (link_slots w.manager.capacity (suc n)),
    active_count-link_slots w.manager.capacity (suc n),
  );
  total = omega (arith, v.total, length-range w.manager.capacity (suc n));
  live = lives;
}
  where
    lives :
        (i : ℕ)
        → (slot_at (longer w.manager (suc n)) i).is_active ≡ true
        → (p : ℕ) × IsLive (record w { manager = longer w.manager (suc n) }) i p
    lives i on = elim (dec_lt i (length w.manager.table)) [
      | yes lt ↦
          let same = slot-longer w.manager (suc n) i lt in
          let (p, l) = v.live i (rw (sym same) on) in
          (
            p,
            record {
              link = ap (λ k. k.link) same ∙ l.link;
              not_null = l.not_null;
              id = rw same (l.id);
              managed = l.managed;
            },
          )
      | no ge ↦
          let off = (new_slot w.manager (suc n) i (omega arith)).0 in
          absurd (true-ne-false (sym on ∙ off))
    ]

-- What expand makes of a full table, when realloc() gives the memory.
abbrev pub room : Manager → ℕ
room m =
    (if ltb max_slot_capacity (m.capacity * 2) then max_slot_capacity else m.capacity * 2)
    - m.capacity

abbrev pub grown : Manager → Manager
grown m = longer m (room m)

pub room-positive : (m : Manager) → 0 < m.capacity → m.capacity < max_slot_capacity → 0 < room m
room-positive m h lt = ground arith

pub grown-IsValid :
    (w : Pool)
    → IsValid [] w
    → w.manager.capacity < max_slot_capacity
    → IsValid (range w.manager.capacity (room w.manager)) (record w { manager = grown w.manager })
grown-IsValid w v lt =
    longer-IsValid w (room w.manager) v (room-positive w.manager v.positive lt)
      (ground (arith, v.small))

pub expand-grown :
    (m : Manager)
    → 0 < m.capacity
    → m.capacity < max_slot_capacity
    → expand true m ≡ (pos 0, grown m)
unfolding expand
expand-grown m h lt =
    let a : leb max_slot_capacity m.capacity ≡ false = ground arith in
    let d : (m.capacity * 2) % u32_mod ≡ m.capacity * 2 = omega (arith, lt) in
    let n : ℕ =
      if ltb max_slot_capacity (m.capacity * 2) then max_slot_capacity else m.capacity * 2 in
    let e : n ≡ m.capacity + (n - m.capacity) = ground arith in
    rw (a, d) (ap (λ c. (pos 0, record (longer m (n - m.capacity)) { capacity = c })) e)

pub expand-full :
    (m : Manager) (ok : Bool) → max_slot_capacity ≤ m.capacity → expand ok m ≡ (negsuc 0, m)
unfolding expand
expand-full m ok h = let a : leb max_slot_capacity m.capacity ≡ true = ground arith in rw a refl

pub expand-failed : (m : Manager) → m.capacity < max_slot_capacity → expand false m ≡ (negsuc 1, m)
unfolding expand
expand-failed m h = let a : leb max_slot_capacity m.capacity ≡ false = ground arith in rw a refl

pub take_new-taken :
    (w : Pool) (fresh : ℕ) → 0 < fresh → take_new w fresh ≡ (some fresh, taken w fresh)
unfolding take_new take_slot
take_new-taken w fresh h = let a : (fresh == 0) ≡ false = ground arith in rw a refl

pub alloc-taken :
    (ok : Bool) (w : Pool) (fresh : ℕ)
    → 0 < fresh
    → w.manager.free_head ≢ invalid_slot_index
    → alloc ok w fresh ≡ (some fresh, taken w fresh)
unfolding alloc
alloc-taken ok w fresh h ne =
    let a : (w.manager.free_head == invalid_slot_index) ≡ false = ground arith in
    rw a (take_new-taken w fresh h)

pub alloc-expanded :
    (ok : Bool) (w : Pool) (fresh : ℕ)
    → w.manager.free_head ≡ invalid_slot_index
    → alloc ok w fresh ≡ take_expanded w (expand ok w.manager) fresh
unfolding alloc
alloc-expanded ok w fresh e =
    let a : (w.manager.free_head == invalid_slot_index) ≡ true = ground arith in rw a refl

-- After session_manager_alloc(): the session is in use and has an id of its own.
pub record IsAllocated (w w' : Pool) (p : ℕ) : Type 0 where
  pub free : List ℕ
  pub valid : IsValid free w'
  pub found : get w'.manager (w'.id_of p) ≡ some p
  pub count : w'.manager.count ≡ w.manager.count + 1

pub taken-IsAllocated :
    (s : ℕ) (fl : List ℕ) (w : Pool) (fresh : ℕ)
    → IsValid (s ∷ fl) w
    → w.is_managed fresh ≡ false
    → 0 < fresh
    → IsAllocated w (taken w fresh) fresh
taken-IsAllocated s fl w fresh v unknown not_null =
    let v' = taken-IsValid s fl w fresh v unknown not_null in
    let l = IsLive-taken s fl w fresh v unknown not_null in
    record {
      free = fl;
      valid = v';
      found =
          get_live fl (taken w fresh) s fresh v'
            (ap (λ k. k.is_active) (slot-taken_self s fl w fresh v unknown not_null)) l;
      count = (counted-taken s fl w fresh v unknown not_null).1;
    }

pub some_free :
    (fl : List ℕ) (w : Pool) (fresh : ℕ)
    → IsValid fl w
    → w.is_managed fresh ≡ false
    → 0 < fresh
    → 0 < length fl
    → IsAllocated w (taken w fresh) fresh
some_free [] w fresh v unknown not_null h = absurd (omega arith)
some_free (s ∷ fl) w fresh v unknown not_null h = taken-IsAllocated s fl w fresh v unknown not_null

-- The two outcomes.
abbrev pub Outcome : Bool → Pool → ℕ → Option ℕ × Pool → Type 0
Outcome ok w fresh r =
    ((r.0 ≡ none)
      × (r.1 ≡ w)
      × (w.manager.count ≡ w.manager.capacity)
      × ((w.manager.capacity ≡ max_slot_capacity) ⊎ (ok ≡ false)))
    ⊎ ((r.0 ≡ some fresh) × IsAllocated w r.1 fresh)

alloc_after_expand :
    (w : Pool) (fresh : ℕ) (ok : Bool)
    → IsValid [] w
    → w.is_managed fresh ≡ false
    → 0 < fresh
    → Outcome ok w fresh (take_expanded w (expand ok w.manager) fresh)
unfolding take_expanded
alloc_after_expand w fresh ok v unknown not_null =
    elim (dec_lt w.manager.capacity max_slot_capacity) [
      | no ge ↦
          let a : expand ok w.manager ≡ (negsuc 0, w.manager) =
            expand-full w.manager ok (omega arith) in
          rw a (inl (refl, refl, omega (arith, v.total), inl (omega (arith, v.small))))
      | yes lt ↦ by_answer ok lt
    ]
  where
    by_answer :
        (ok : Bool)
        → w.manager.capacity < max_slot_capacity
        → Outcome ok w fresh (take_expanded w (expand ok w.manager) fresh)
    by_answer false lt =
        rw (expand-failed w.manager lt) (inl (refl, refl, omega (arith, v.total), inr refl))
    by_answer true lt =
        let w' : Pool = record w { manager = grown w.manager } in
        let n = room w.manager in
        let positive = room-positive w.manager v.positive lt in
        let a =
          some_free (range w.manager.capacity n) w' fresh (grown-IsValid w v lt) unknown not_null
            (omega (arith, positive, length-range w.manager.capacity n)) in
        rw (expand-grown w.manager v.positive lt, take_new-taken w' fresh not_null)
          (inr (refl, record { free = a.free; valid = a.valid; found = a.found; count = a.count }))

-- session_manager_alloc() on a valid manager, with a new session that is not NULL and not managed yet: either it answers the
-- session, which then is found under its id, with one session more counted and the manager valid; or it answers
-- NULL and changes nothing, and then every slot is in use, and the table has its largest size or realloc() failed.
pub alloc_lem :
    (fl : List ℕ) (w : Pool) (fresh : ℕ) (ok : Bool)
    → IsValid fl w
    → w.is_managed fresh ≡ false
    → 0 < fresh
    → Outcome ok w fresh (alloc ok w fresh)
alloc_lem (s ∷ fl) w fresh ok v unknown not_null =
    let (e, lt, _, _) = v.chain in
    subst (Outcome ok w fresh)
      (sym (alloc-taken ok w fresh not_null (λ h. omega (arith, h, e, lt, v.stored, v.small))))
      (inr (refl, taken-IsAllocated s fl w fresh v unknown not_null))
alloc_lem [] w fresh ok v unknown not_null =
    subst (Outcome ok w fresh) (sym (alloc-expanded ok w fresh v.chain))
      (alloc_after_expand w fresh ok v unknown not_null)

-- ===== src/Session/Manager/Keep.antt =====
-- The sessions that are there when session_manager_alloc() of src/session.c is called.
use libevlite.Base.{
  ℕ, ◌≤◌, ◌<◌, ◌≡◌, ◌≢◌, sym, subst, ap, List, [], ◌∷◌, length, get_or, arith, Bool, true, false,
  Option, some, dec_lt,
}
use libevlite.Session.Sid.{sid_seq, max_slot_capacity}
use libevlite.Session.Manager.Defs.{
  Slot, Manager, Pool, no_slot, slot_at, expand, take_slot, take_expanded, alloc, get,
}
use libevlite.Session.Manager.FreeList.{range, length-range}
use libevlite.Session.Manager.Invariant.{IsValid, active-lt}
use libevlite.Session.Manager.Take.{taken, slot-taken_ne}
use libevlite.Session.Manager.Invariant.{get_sound}
use libevlite.Session.Manager.Alloc.{
  slot-longer, grown, room, room-positive, grown-IsValid, expand-full, expand-failed, expand-grown,
  take_new-taken, alloc-taken, alloc-expanded,
}

-- A slot in use that stays as it is stays found.
pub get_keep :
    (m m' : Manager) (id q : ℕ)
    → slot_at m' (sid_seq id) ≡ slot_at m (sid_seq id)
    → m.capacity ≤ m'.capacity
    → get m id ≡ some q
    → get m' id ≡ some q
unfolding get
get_keep m m' id q same le e = rw same (ground arith)

-- An idle slot and an active one differ.
other_slot :
    (t : List Slot) (i s : ℕ)
    → (get_or t i no_slot).is_active ≡ true
    → (get_or t s no_slot).is_active ≡ false
    → i ≢ s
other_slot t i s on off e = let same = ap (λ k. (get_or t k no_slot).is_active) e in cc

capacity-taken : (w : Pool) (fresh : ℕ) → w.manager.capacity ≤ (taken w fresh).manager.capacity
unfolding take_slot
capacity-taken w fresh = omega arith

pub taken_keeps :
    (fl : List ℕ) (w : Pool) (fresh id q : ℕ)
    → IsValid fl w
    → w.is_managed fresh ≡ false
    → 0 < fresh
    → 0 < length fl
    → get w.manager id ≡ some q
    → get (taken w fresh).manager id ≡ some q
taken_keeps [] w fresh id q v unknown not_null h e = absurd (omega arith)
taken_keeps (s ∷ fl) w fresh id q v unknown not_null h e =
    let (on, _, _) = get_sound (s ∷ fl) w id q v e in
    let (_, _, off, _) = v.chain in
    let ne = other_slot w.manager.table (sid_seq id) s on off in
    get_keep w.manager (taken w fresh).manager id q
      (slot-taken_ne s fl w fresh v unknown not_null (sid_seq id) ne) (capacity-taken w fresh) e

grown_keeps :
    (fl : List ℕ) (w : Pool) (id q : ℕ)
    → IsValid fl w
    → get w.manager id ≡ some q
    → get (grown w.manager) id ≡ some q
grown_keeps fl w id q v e =
    let (on, _, _) = get_sound fl w id q v e in
    let lt = active-lt w.manager.table (sid_seq id) on in
    get_keep w.manager (grown w.manager) id q (slot-longer w.manager _ (sid_seq id) lt)
      (omega arith) e

abbrev Keeps : ℕ → ℕ → Option ℕ × Pool → Type 0
Keeps id q r = get r.1.manager id ≡ some q

-- In a valid manager, a session that is found under an id is found under it after session_manager_alloc() too, whether or not that
-- succeeds and also when it moves the table.
pub get-alloc :
    (fl : List ℕ) (w : Pool) (fresh id q : ℕ) (ok : Bool)
    → IsValid fl w
    → w.is_managed fresh ≡ false
    → 0 < fresh
    → get w.manager id ≡ some q
    → get (alloc ok w fresh).1.manager id ≡ some q
unfolding take_expanded
get-alloc (s ∷ fl) w fresh id q ok v unknown not_null e =
    let (h, lt, _, _) = v.chain in
    subst (Keeps id q)
      (sym (alloc-taken ok w fresh not_null (λ k. omega (arith, k, h, lt, v.stored, v.small))))
      (taken_keeps (s ∷ fl) w fresh id q v unknown not_null (omega arith) e)
get-alloc [] w fresh id q ok v unknown not_null e =
    subst (Keeps id q) (sym (alloc-expanded ok w fresh v.chain))
      (by_room (dec_lt w.manager.capacity max_slot_capacity) ok)
  where
    by_room :
        Dec (w.manager.capacity < max_slot_capacity)
        → (ok : Bool) → Keeps id q (take_expanded w (expand ok w.manager) fresh)
    by_room (no ge) ok = rw (expand-full w.manager ok (omega arith)) e
    by_room (yes lt) false = rw (expand-failed w.manager lt) e
    by_room (yes lt) true =
        let n = room w.manager in
        rw
          (
            expand-grown w.manager v.positive lt,
            take_new-taken (record w { manager = grown w.manager }) fresh not_null,
          )
          (taken_keeps (range w.manager.capacity n) (record w { manager = grown w.manager }) fresh
            id q (grown-IsValid w v lt) unknown not_null
            (omega
              (arith, room-positive w.manager v.positive lt, length-range w.manager.capacity n))
            (grown_keeps [] w id q v e))

-- ===== src/Session/Manager/Remove.antt =====
-- session_manager_remove() of src/session.c, and the reuse of a slot.
use libevlite.Base.{
  assign, ℕ, ◌+◌, ◌%◌, ◌^◌, ◌<◌, ◌≡◌, ◌≢◌, refl, sym, ap, ◌∙◌, List, ◌∷◌, length, set, arith, Bool,
  true, false, none, some, length-set, get_or-set_self, get_or-set_ne, leb, ℕ_discrete,
}
use libevlite.Base.Int.{pos}
use libevlite.Base.Words.{u32_mod, sub32}
use libevlite.Session.Sid.{sid_seq, sid_version}
use libevlite.Session.Manager.Defs.{
  next_free, session, Slot, Manager, Pool, no_slot, slot_at, alloc, get,
}
use libevlite.Session.Manager.FreeList.{Chain-set}
use libevlite.Session.Manager.Invariant.{
  IsValid, IsLive, to_ℕ, active_count, active_count-set, active-lt,
}
use libevlite.Session.Manager.Take.{taken, slot-taken_self}
use libevlite.Session.SidLaws.{make_sid-fields}
use libevlite.Session.Manager.Defs.{remove, holds}
use libevlite.Session.Manager.FreeList.{active-Avoids}
use libevlite.Session.Manager.Invariant.{get_sound}
use libevlite.Session.Manager.Keep.{get_keep}
use libevlite.Session.Manager.Alloc.{alloc-taken, taken-IsAllocated}

-- The slot after its session is gone.
abbrev freed : Pool → ℕ → Slot
freed w i = record {
  link = next_free w.manager.free_head;
  version = ((slot_at w.manager i).version + 1) % 2 ^ 16;
  is_active = false;
}

abbrev pub removed : Pool → ℕ → ℕ → Pool
removed w i p = record {
  manager = record w.manager {
    table = set w.manager.table i (freed w i);
    count = sub32 w.manager.count 1;
    free_head = i;
  };
  id_of = assign w.id_of p 0;
  is_managed = assign w.is_managed p false;
}

true-ne-false : true ≢ false
true-ne-false x = cc

module _ (fl : List ℕ) (w : Pool) (i p : ℕ) (v : IsValid fl w)
    (on : (slot_at w.manager i).is_active ≡ true) (l : IsLive w i p) where
  here : i < length w.manager.table
  here = active-lt w.manager.table i on

  pub seq_of :
      (j q : ℕ) → (slot_at w.manager j).is_active ≡ true → IsLive w j q → sid_seq (w.id_of q) ≡ j
  seq_of j q on_j l_j =
      let lt = active-lt w.manager.table j on_j in
      let (_, _, seq, _) =
        make_sid-fields w.manager.index (slot_at w.manager j).version j v.index_small (v.versions j)
          (omega (arith, v.stored, v.small, lt)) in
      ap sid_seq l_j.id ∙ seq

  remove-removed : remove w (some p) ≡ (pos 0, removed w i p)
  unfolding remove
  remove-removed =
      let s = seq_of i p on l in
      let a : leb w.manager.capacity i ≡ false = ground (arith, here, v.stored) in
      let b : holds (slot_at w.manager i).link p ≡ true = rw l.link (ground arith) in
      rw (s, a, on, b) refl

  slot-removed_self : slot_at (removed w i p).manager i ≡ freed w i
  slot-removed_self = get_or-set_self w.manager.table i _ no_slot here

  pub slot-removed_ne : (j : ℕ) → i ≢ j → slot_at (removed w i p).manager j ≡ slot_at w.manager j
  slot-removed_ne j ne = get_or-set_ne w.manager.table i j _ no_slot ne

  count-removed :
      ((removed w i p).manager.count ≡ active_count (removed w i p).manager.table)
      × ((removed w i p).manager.count + 1 ≡ w.manager.count)
  count-removed =
      let step = active_count-set w.manager.table i (freed w i) here in
      let one : to_ℕ (slot_at w.manager i).is_active ≡ 1 = ap to_ℕ on in
      let room : w.manager.count < u32_mod = omega (arith, v.total, v.small) in
      (omega (arith, step, one, room, v.counted), omega (arith, step, one, room, v.counted))

  IsLive-removed :
      (j q : ℕ)
      → i ≢ j
      → (slot_at w.manager j).is_active ≡ true
      → IsLive w j q
      → IsLive (removed w i p) j q
  IsLive-removed j q ne on_j l_j =
      let other : p ≢ q =
        λ e. ne (sym (seq_of i p on l) ∙ ap (λ k. sid_seq (w.id_of k)) e ∙ seq_of j q on_j l_j) in
      record {
        link = ap (λ k. k.link) (slot-removed_ne j ne) ∙ l_j.link;
        not_null = l_j.not_null;
        id = rw (slot-removed_ne j ne) (ground (arith, other, l_j.id));
        managed = ground (arith, other, l_j.managed);
      }

  versions-removed : (j : ℕ) → (slot_at (removed w i p).manager j).version < 2 ^ 16
  versions-removed j = elim (ℕ_discrete i j) [
    | yes e ↦ rw (sym e, slot-removed_self) (omega arith)
    | no ne ↦ rw (slot-removed_ne j ne) (v.versions j)
  ]

  lives :
      (j : ℕ)
      → (slot_at (removed w i p).manager j).is_active ≡ true
      → (q : ℕ) × IsLive (removed w i p) j q
  lives j on_j = elim (ℕ_discrete i j) [
    | yes e ↦
        let off =
          ap (λ k. (slot_at (removed w i p).manager k).is_active) (sym e)
          ∙ ap (λ k. k.is_active) slot-removed_self in
        absurd (true-ne-false (sym on_j ∙ off))
    | no ne ↦
        let on_w = sym (ap (λ k. k.is_active) (slot-removed_ne j ne)) ∙ on_j in
        let (q, l_j) = v.live j on_w in (q, IsLive-removed j q ne on_w l_j)
  ]

  removed-IsValid : IsValid (i ∷ fl) (removed w i p)
  removed-IsValid =
      let (counted, less) = count-removed in
      record {
        stored = length-set w.manager.table i _ ∙ v.stored;
        index_small = v.index_small;
        positive = v.positive;
        small = v.small;
        versions = versions-removed;
        chain = (
          refl,
          omega (arith, length-set w.manager.table i (freed w i), here),
          rw slot-removed_self refl,
          rw slot-removed_self (
              Chain-set w.manager.table i w.manager.free_head (freed w i) fl
                (active-Avoids w.manager.table i w.manager.free_head fl v.chain on) v.chain),
        );
        distinct = (active-Avoids w.manager.table i w.manager.free_head fl v.chain on, v.distinct);
        counted = counted;
        total = omega (arith, v.total, less);
        live = lives;
      }

none-ne-some : (p : ℕ) → none ≢ some p
none-ne-some p e = cc

-- The version of a slot never comes back in one step.
bumped : (n : ℕ) → n < 2 ^ 16 → (n + 1) % 2 ^ 16 ≢ n
bumped n h e = omega arith

-- No session of another version is found.
get_stale :
    (m : Manager) (id : ℕ) → (slot_at m (sid_seq id)).version ≢ sid_version id → get m id ≡ none
unfolding get
get_stale m id ne = ground arith

-- A session that is found under an id in a valid manager can be removed: session_manager_remove() answers 0, the manager stays valid,
-- the slot of the session is the next one to be handed out, one session less is counted, and the id finds nothing any more.
pub remove_lem :
    (fl : List ℕ) (w : Pool) (id p : ℕ)
    → IsValid fl w
    → get w.manager id ≡ some p
    → let (rc, w') = remove w (some p) in
      (rc ≡ pos 0)
      × IsValid (sid_seq id ∷ fl) w'
      × (w'.manager.count + 1 ≡ w.manager.count)
      × (get w'.manager id ≡ none)
remove_lem fl w id p v e =
    let (on, ver, l) = get_sound fl w id p v e in
    let i = sid_seq id in
    let gone : get (removed w i p).manager id ≡ none = get_stale (removed w i p).manager id (λ same.
      bumped (slot_at w.manager i).version (v.versions i)
        (sym (ap (λ k. k.version) (slot-removed_self fl w i p v on l)) ∙ same ∙ sym ver)) in
    rw (remove-removed fl w i p v on l)
      (refl, removed-IsValid fl w i p v on l, (count-removed fl w i p v on l).1, gone)

session-eq : (p q : ℕ) → session p ≡ session q → p ≡ q
session-eq p q e = cc

-- In a valid manager, removing a session leaves every other session found under the ids that found it.
pub get-remove :
    (fl : List ℕ) (w : Pool) (id p other q : ℕ)
    → IsValid fl w
    → get w.manager id ≡ some p
    → get w.manager other ≡ some q
    → p ≢ q
    → get (remove w (some p)).1.manager other ≡ some q
get-remove fl w id p other q v e f differ =
    let (on, ver, l) = get_sound fl w id p v e in
    let (on_q, ver_q, l_q) = get_sound fl w other q v f in
    let i = sid_seq id in
    let apart : i ≢ sid_seq other = λ same.
      differ (session-eq p q (sym l.link ∙ ap (λ k. (slot_at w.manager k).link) same ∙ l_q.link)) in
    rw (remove-removed fl w i p v on l) (
      get_keep w.manager (removed w i p).manager other q
        (slot-removed_ne fl w i p v on l (sid_seq other) apart) (omega arith) f)

-- A stale id, in a valid manager: after its session is removed and the next session is allocated, which
-- takes the slot, the old id finds nothing, and the new session is found under an id that is not
-- the old one. Of the sessions that take the slot after this one it says nothing: a version has 16 bits.
pub get-alloc-remove :
    (fl : List ℕ) (w : Pool) (id p fresh : ℕ) (ok : Bool)
    → IsValid fl w
    → get w.manager id ≡ some p
    → w.is_managed fresh ≡ false
    → 0 < fresh
    → let (answer, w') = alloc ok (remove w (some p)).1 fresh in
      (answer ≡ some fresh)
      × (get w'.manager id ≡ none)
      × (get w'.manager (w'.id_of fresh) ≡ some fresh)
      × (w'.id_of fresh ≢ id)
get-alloc-remove fl w id p fresh ok v e unknown not_null =
    let (on, ver, l) = get_sound fl w id p v e in
    let i = sid_seq id in
    let w₁ = removed w i p in
    let v₁ = removed-IsValid fl w i p v on l in
    let lt = active-lt w.manager.table i on in
    let unknown₁ : w₁.is_managed fresh ≡ false = ground (arith, unknown) in
    let a = taken-IsAllocated i fl w₁ fresh v₁ unknown₁ not_null in
    let version : (slot_at (taken w₁ fresh).manager i).version
        ≡ ((slot_at w.manager i).version + 1) % 2 ^ 16 =
      ap (λ k. k.version) (slot-taken_self i fl w₁ fresh v₁ unknown₁ not_null)
      ∙ ap (λ k. k.version) (slot-removed_self fl w i p v on l) in
    let gone : get (taken w₁ fresh).manager id ≡ none =
      get_stale (taken w₁ fresh).manager id (λ same.
        bumped (slot_at w.manager i).version (v.versions i) (sym version ∙ same ∙ sym ver)) in
    let taken_it =
      alloc-taken ok w₁ fresh not_null (λ h. omega (arith, h, lt, v.stored, v.small)) in
    rw (remove-removed fl w i p v on l, taken_it)
      (
        refl,
        gone,
        a.found,
        λ same.
            none-ne-some fresh (sym gone ∙ ap (get (taken w₁ fresh).manager) (sym same) ∙ a.found),
      )

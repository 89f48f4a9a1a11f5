-- ===== src/Session/Manager/Take.antt =====
-- The second half of session_manager_alloc() (src/session.c): the first free slot takes the session.
use libevlite.Base.{
  ℕ, ◌+◌, ◌^◌, ◌<◌, ◌≡◌, ◌≢◌, sym, subst, ap, ◌∙◌, List, ◌∷◌, length, get_or, arith, true, false,
  length-set, get_or-set_self, get_or-set_ne, ℕ_discrete,
}
use libevlite.Base.Words.{u32_mod}
use libevlite.Session.Manager.Defs.{
  session, Slot, Manager, Pool, next_of, no_slot, slot_at, take_slot,
}
use libevlite.Session.Manager.FreeList.{Chain, Chain-set}
use libevlite.Session.Manager.Invariant.{IsValid, IsLive, to_ℕ, active_count, active_count-set}

-- The slot that take_slot fills.
abbrev pub filled : Pool → ℕ → Slot
filled w fresh = record (slot_at w.manager w.manager.free_head) {
  link = session fresh;
  is_active = true;
}

abbrev pub taken : Pool → ℕ → Pool
taken w fresh = (take_slot w fresh).1

module _ (s : ℕ) (fl : List ℕ) (w : Pool) (fresh : ℕ) (v : IsValid (s ∷ fl) w)
    (unknown : w.is_managed fresh ≡ false) (not_null : 0 < fresh) where
  pub slot-taken_self : slot_at (taken w fresh).manager s ≡ filled w fresh
  unfolding take_slot
  slot-taken_self =
      let (e, lt, _, _) = v.chain in rw e (get_or-set_self w.manager.table s _ no_slot lt)

  pub slot-taken_ne : (i : ℕ) → i ≢ s → slot_at (taken w fresh).manager i ≡ slot_at w.manager i
  unfolding take_slot
  slot-taken_ne i ne =
      let (e, _, _, _) = v.chain in
      get_or-set_ne w.manager.table w.manager.free_head i _ no_slot (λ same. ne (sym same ∙ e))

  pub IsLive-taken : IsLive (taken w fresh) s fresh
  unfolding take_slot
  IsLive-taken =
      let (e, _, _, _) = v.chain in
      record {
        link = ap (λ k. k.link) slot-taken_self;
        not_null = not_null;
        id = rw (slot-taken_self, sym e) (ground arith);
        managed = ground arith;
      }

  IsLive-taken_ne : (i q : ℕ) → i ≢ s → IsLive w i q → IsLive (taken w fresh) i q
  unfolding take_slot
  IsLive-taken_ne i q ne l =
      let same = slot-taken_ne i ne in
      record {
        link = ap (λ k. k.link) same ∙ l.link;
        not_null = l.not_null;
        id = rw same (ground (arith, l.id, l.managed, unknown));
        managed = ground (arith, l.managed);
      }

  abbrev pub after : Manager
  after = (taken w fresh).manager

  stored-taken : length after.table ≡ after.capacity
  unfolding take_slot
  stored-taken = length-set w.manager.table w.manager.free_head _ ∙ v.stored

  versions-taken : (i : ℕ) → (slot_at after i).version < 2 ^ 16
  versions-taken i = elim (ℕ_discrete i s) [
    | yes e ↦ rw (e, slot-taken_self) (v.versions w.manager.free_head)
    | no ne ↦ rw (slot-taken_ne i ne) (v.versions i)
  ]

  Chain-taken : Chain after.table after.free_head fl
  unfolding take_slot
  Chain-taken =
      let (e, lt, idle, rest) = v.chain in
      rw e (
        Chain-set w.manager.table s (next_of (get_or w.manager.table s no_slot).link) _ fl
          v.distinct.0 rest)

  pub counted-taken : (after.count ≡ active_count after.table) × (after.count ≡ w.manager.count + 1)
  unfolding take_slot
  counted-taken =
      let (e, lt, idle, _) = v.chain in
      let slot : Slot = record (slot_at w.manager s) { link = session fresh; is_active = true } in
      let step = active_count-set w.manager.table s slot lt in
      let off : to_ℕ (get_or w.manager.table s no_slot).is_active ≡ 0 = ap to_ℕ idle in
      let room : w.manager.count + 1 < u32_mod = omega (arith, v.total, v.small) in
      rw e (omega (arith, step, off, room, v.counted), omega (arith, room))

  IsLive-after : (i : ℕ) → (slot_at after i).is_active ≡ true → (p : ℕ) × IsLive (taken w fresh) i p
  IsLive-after i on = elim (ℕ_discrete i s) [
    | yes e ↦ (fresh, subst (λ k. IsLive (taken w fresh) k fresh) (sym e) IsLive-taken)
    | no ne ↦
        let (p, l) = v.live i (rw (sym (slot-taken_ne i ne)) on) in (p, IsLive-taken_ne i p ne l)
  ]

  pub taken-IsValid : IsValid fl (taken w fresh)
  unfolding take_slot
  taken-IsValid =
      let (counted, more) = counted-taken in
      record {
        stored = stored-taken;
        index_small = v.index_small;
        positive = v.positive;
        small = v.small;
        versions = versions-taken;
        chain = Chain-taken;
        distinct = v.distinct.1;
        counted = counted;
        total = omega (arith, v.total, more);
        live = IsLive-after;
      }

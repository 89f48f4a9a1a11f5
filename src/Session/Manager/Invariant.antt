-- ===== src/Session/Manager/Invariant.antt =====
-- The invariant of the session manager (src/session.c), and what it says of a lookup.
use libevlite.Base.{
  ℕ, zero, suc, ◌+◌, ◌^◌, ◌≤◌, ◌<◌, ◌≡◌, refl, sym, subst, List, [], ◌∷◌, ◌++◌, length, get_or, set,
  arith, Bool, true, false, ◌&&◌, some, ltb, ◌==◌, if◌then◌else◌,
}
use libevlite.Session.Sid.{sid_seq, sid_version, make_sid, max_slot_capacity}
use libevlite.Session.SidLaws.{make_sid-fields}
use libevlite.Session.Manager.Defs.{
  Link, session, Slot, Manager, Pool, session_of, no_slot, slot_at, link_slots, create, get,
}
use libevlite.Session.Manager.FreeList.{
  Chain, Distinct, range, length-range, range-Distinct, length-link_slots, link_slots-Chain,
}

abbrev pub to_ℕ : Bool → ℕ
to_ℕ true = 1
to_ℕ false = 0

pub active_count : List Slot → ℕ
active_count [] = 0
active_count (s ∷ t) = to_ℕ s.is_active + active_count t

pub active_count-set :
    (t : List Slot) (i : ℕ) (v : Slot)
    → i < length t
    → active_count (set t i v) + to_ℕ (get_or t i no_slot).is_active
      ≡ active_count t + to_ℕ v.is_active
unfolding active_count
active_count-set [] i v h = absurd (omega arith)
active_count-set (s ∷ t) zero v h = omega arith
active_count-set (s ∷ t) (suc i) v h = omega (arith, active_count-set t i v (omega arith))

pub active_count-append :
    (t u : List Slot) → active_count (t ++ u) ≡ active_count t + active_count u
unfolding active_count
active_count-append [] u = omega arith
active_count-append (s ∷ t) u = omega (arith, active_count-append t u)

pub active_count-link_slots : (i n : ℕ) → active_count (link_slots i n) ≡ 0
unfolding active_count link_slots
active_count-link_slots i zero = refl
active_count-link_slots i (suc zero) = omega arith
active_count-link_slots i (suc (suc n)) = omega (arith, active_count-link_slots (i + 1) (suc n))

pub active-lt : (t : List Slot) (i : ℕ) → (get_or t i no_slot).is_active ≡ true → i < length t
active-lt [] i h = cc
active-lt (s ∷ t) zero h = omega arith
active-lt (s ∷ t) (suc i) h = omega (arith, active-lt t i h)

-- Slot `i` is in use by session `p`, which knows its id.
pub record IsLive (w : Pool) (i p : ℕ) : Type 0 where
  pub link : (slot_at w.manager i).link ≡ session p
  pub not_null : 0 < p
  pub id : w.id_of p ≡ make_sid w.manager.index (slot_at w.manager i).version i
  pub managed : w.is_managed p ≡ true

-- `fl` are the free slots, in the order in which they are handed out.
pub record IsValid (fl : List ℕ) (w : Pool) : Type 0 where
  pub stored : length w.manager.table ≡ w.manager.capacity
  pub index_small : w.manager.index < 255
  pub positive : 0 < w.manager.capacity
  pub small : w.manager.capacity ≤ max_slot_capacity
  pub versions : (i : ℕ) → (slot_at w.manager i).version < 2 ^ 16
  pub chain : Chain w.manager.table w.manager.free_head fl
  pub distinct : Distinct fl
  pub counted : w.manager.count ≡ active_count w.manager.table
  pub total : w.manager.count + length fl ≡ w.manager.capacity
  pub live : (i : ℕ) → (slot_at w.manager i).is_active ≡ true → (p : ℕ) × IsLive w i p

-- A live session is found under its id.
pub get_live :
    (fl : List ℕ) (w : Pool) (i p : ℕ)
    → IsValid fl w
    → (slot_at w.manager i).is_active ≡ true
    → IsLive w i p
    → get w.manager (w.id_of p) ≡ some p
unfolding get
get_live fl w i p v on l =
    let lt = active-lt w.manager.table i on in
    let (_, ver, seq, _) =
      make_sid-fields w.manager.index (slot_at w.manager i).version i v.index_small (v.versions i)
        (omega (arith, v.stored, v.small)) in
    rw (l.id, seq, ver) (ground (arith, v.stored, l.link, l.not_null))

-- In a valid manager, what a lookup finds is a live session of the slot and the version that the id names.
pub get_sound :
    (fl : List ℕ) (w : Pool) (id p : ℕ)
    → IsValid fl w
    → get w.manager id ≡ some p
    → ((slot_at w.manager (sid_seq id)).is_active ≡ true)
      × ((slot_at w.manager (sid_seq id)).version ≡ sid_version id)
      × IsLive w (sid_seq id) p
unfolding get
get_sound fl w id p v e =
    let seq = sid_seq id in
    let slot = slot_at w.manager seq in
    let hit : ((slot.is_active && slot.version == sid_version id) ≡ true)
        × (session_of slot.link ≡ some p) =
      ground arith in
    let on : slot.is_active ≡ true = ground arith in
    let (q, l) = v.live seq on in
    let same : q ≡ p = found q p slot.link l.link l.not_null hit.1 in
    (on, ground arith, subst (λ r. IsLive w seq r) same l)
  where
    found : (q p : ℕ) (k : Link) → k ≡ session q → 0 < q → session_of k ≡ some p → q ≡ p
    found q p k e h f = ground arith

pub link_slots-idle :
    (i n j : ℕ)
    → ((get_or (link_slots i n) j no_slot).is_active ≡ false)
      × ((get_or (link_slots i n) j no_slot).version ≡ 0)
unfolding link_slots
link_slots-idle i zero j = (refl, refl)
link_slots-idle i (suc zero) zero = (refl, refl)
link_slots-idle i (suc zero) (suc j) = (refl, refl)
link_slots-idle i (suc (suc n)) zero = (refl, refl)
link_slots-idle i (suc (suc n)) (suc j) = link_slots-idle (i + 1) (suc n) j

-- A table of `n` linked slots.
abbrev linked : ℕ → ℕ → Manager
linked index n = record {
  index = index;
  count = 0;
  capacity = n;
  table = link_slots 0 n;
  free_head = 0;
  recyclesize = 0;
  recyclelist = [];
}

linked-Chain : (n : ℕ) → 0 < n → Chain (link_slots 0 n) 0 (range 0 n)
linked-Chain zero h = absurd (omega arith)
linked-Chain (suc n) h = link_slots-Chain [] 0 n refl

linked-IsValid :
    (index n : ℕ) (id_of : ℕ → ℕ) (is_managed : ℕ → Bool)
    → index < 255
    → 0 < n
    → n ≤ max_slot_capacity
    → IsValid
        (range 0 n)
        (record { manager = linked index n; id_of = id_of; is_managed = is_managed })
linked-IsValid index n id_of is_managed h positive small = record {
  stored = length-link_slots 0 n;
  index_small = h;
  positive = positive;
  small = small;
  versions = λ i. omega (arith, (link_slots-idle 0 n i).1);
  chain = linked-Chain n positive;
  distinct = range-Distinct 0 n;
  counted = sym (active_count-link_slots 0 n);
  total = omega (arith, length-range 0 n);
  live = λ i on. absurd (idle_not_active i on);
}
  where
    idle_not_active : (i : ℕ) → (get_or (link_slots 0 n) i no_slot).is_active ≡ true → ⊥
    idle_not_active i on = let off = (link_slots-idle 0 n i).0 in cc

-- session_manager_create() with a thread index below 255 gives a valid manager with no session, whatever size is asked for: every
-- slot is free.
pub create-IsValid :
    (index size : ℕ) (id_of : ℕ → ℕ) (is_managed : ℕ → Bool)
    → index < 255
    → let m = create index size in
      IsValid (range 0 m.capacity) (record { manager = m; id_of = id_of; is_managed = is_managed })
      × (m.count ≡ 0)
unfolding create
create-IsValid index size id_of is_managed h =
    let n = if size == 0 then 1024 else size in
    (
      linked-IsValid index (if ltb max_slot_capacity n then max_slot_capacity else n) id_of
          is_managed h (ground arith) (ground arith),
      refl,
    )

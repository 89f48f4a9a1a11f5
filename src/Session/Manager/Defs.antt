-- ===== src/Session/Manager/Defs.antt =====
-- `struct slot`, `struct session_manager` and the session_manager_ functions of src/session.c, in
-- the build of the Makefile (USE_REUSESESSION is off there). A session is known by its address; of
-- its fields the manager writes `id` and `manager`, which the functions take and return beside it.
use libevlite.Base.{
  ℕ, zero, suc, ◌+◌, ◌-◌, ◌*◌, ◌%◌, ◌^◌, Bool, true, false, ◌&&◌, ◌||◌, not, Option, none, some,
  List, [], ◌∷◌, ◌++◌, ltb, leb, ◌==◌, if◌then◌else◌, get_or, set, assign,
}
use libevlite.Base.Int.{ℤ, pos, negsuc}
use libevlite.Base.Words.{u32_mod, add32, sub32}
use libevlite.Session.Sid.{sid_seq, sid_version, make_sid, invalid_slot_index, max_slot_capacity}

-- The union: the index of the next free slot, or the session. It is read as a session only behind a
-- test of `is_active`, and as an index only at the head of the free list.
pub data Link : Type 0 where
  next_free : ℕ → Link
  session : ℕ → Link

pub record Slot : Type 0 where
  pub link : Link
  pub version : ℕ
  pub is_active : Bool

pub record Manager : Type 0 where
  pub index : ℕ
  pub count : ℕ
  pub capacity : ℕ
  pub table : List Slot
  pub free_head : ℕ
  pub recyclesize : ℕ
  pub recyclelist : List ℕ

-- The manager, and the fields `id` and `manager` (NULL or this manager) of the sessions.
pub record Pool : Type 0 where
  pub manager : Manager
  pub id_of : ℕ → ℕ
  pub is_managed : ℕ → Bool

-- The index in the union, also where a session was stored last: its lower half.
abbrev pub next_of : Link → ℕ
next_of (next_free n) = n
next_of (session p) = p % u32_mod

-- `slot->session == session`, behind the test of `is_active`.
abbrev pub holds : Link → ℕ → Bool
holds (next_free n) p = false
holds (session q) p = q == p

abbrev pub session_of : Link → Option ℕ
session_of (next_free n) = none
session_of (session zero) = none
session_of (session (suc p)) = some (suc p)

abbrev pub no_slot : Slot
no_slot = record { link = next_free invalid_slot_index; version = 0; is_active = false }

abbrev pub slot_at : Manager → ℕ → Slot
slot_at m seq = get_or m.table seq no_slot

-- The loop that links the slots from `i` on, and the end of the list behind the last one.
unfoldable pub link_slots : ℕ → ℕ → List Slot
link_slots i zero = []
link_slots i (suc zero) =
    record { link = next_free invalid_slot_index; version = 0; is_active = false } ∷ []
link_slots i (suc (suc n)) =
    record { link = next_free (i + 1); version = 0; is_active = false } ∷ link_slots (i + 1) (suc n)

-- Where calloc() gives the memory; the source goes on with NULL otherwise (the assertions are off).
unfoldable pub create : ℕ → ℕ → Manager
unfolding link_slots
create index size =
    let n = if size == 0 then 1024 else size in
    let capacity = if ltb max_slot_capacity n then max_slot_capacity else n in
    record {
      index = index;
      count = 0;
      capacity = capacity;
      table = link_slots 0 capacity;
      free_head = 0;
      recyclesize = 0;
      recyclelist = [];
    }

-- `reallocated` is the answer of realloc().
unfoldable pub expand : Bool → Manager → ℤ × Manager
unfolding link_slots
expand reallocated m =
    if leb max_slot_capacity m.capacity
    then (negsuc 0, m)
    else let doubled = (m.capacity * 2) % u32_mod in
      let new = if ltb max_slot_capacity doubled then max_slot_capacity else doubled in
      if reallocated
      then (
        pos 0,
        record m {
          table = m.table ++ link_slots m.capacity (new - m.capacity);
          capacity = new;
          free_head = m.capacity;
        },
      )
      else (negsuc 1, m)

-- From the free slot on: `fresh` is the new session.
unfoldable pub take_slot : Pool → ℕ → ℕ × Pool
take_slot w fresh =
    let m = w.manager in
    let slot = slot_at m m.free_head in
    (
      fresh,
      record {
        manager = record m {
          free_head = next_of slot.link;
          count = add32 m.count 1;
          table = set m.table m.free_head (record slot { link = session fresh; is_active = true });
        };
        id_of = assign w.id_of fresh (make_sid m.index slot.version m.free_head);
        is_managed = assign w.is_managed fresh true;
      },
    )

-- _new_session() may answer NULL, here 0.
unfoldable pub take_new : Pool → ℕ → Option ℕ × Pool
unfolding take_slot
take_new w fresh = if fresh == 0 then (none, w) else let (p, w') = take_slot w fresh in (some p, w')

unfoldable pub take_expanded : Pool → ℤ × Manager → ℕ → Option ℕ × Pool
unfolding take_new
take_expanded w (pos zero, m) fresh = take_new (record w { manager = m }) fresh
take_expanded w (pos (suc rc), m) fresh = (none, record w { manager = m })
take_expanded w (negsuc rc, m) fresh = (none, record w { manager = m })

-- `fresh` is the address that _new_session() answers.
unfoldable pub alloc : Bool → Pool → ℕ → Option ℕ × Pool
unfolding expand take_new take_expanded
alloc reallocated w fresh =
    if w.manager.free_head == invalid_slot_index
    then take_expanded w (expand reallocated w.manager) fresh
    else take_new w fresh

unfoldable pub get : Manager → ℕ → Option ℕ
get m id =
    let seq = sid_seq id in
    let slot = slot_at m seq in
    if leb m.capacity seq
    then none
    else if slot.is_active && slot.version == sid_version id
    then session_of slot.link
    else none

-- `func` answers whether it returned 0, and its context.
unfoldable pub foreach_slots {ℓ} : {C : Type ℓ} → List Slot → (C → ℕ → Bool × C) → C → ℕ → ℕ × C
foreach_slots [] func c count = (count, c)
foreach_slots (slot ∷ slots) func c count =
    elim (if slot.is_active then session_of slot.link else none) [
      | none ↦ foreach_slots slots func c count
      | some p ↦
          let (go_on, c') = func c p in
          let rest = foreach_slots slots func c' (count + 1) in if go_on then rest else (count, c')
    ]

unfoldable pub foreach {ℓ} : {C : Type ℓ} → Manager → (C → ℕ → Bool × C) → C → ℕ × C
unfolding foreach_slots
foreach m func c = foreach_slots m.table func c 0

-- `none` is the NULL session.
unfoldable pub remove : Pool → Option ℕ → ℤ × Pool
remove w none = (negsuc 0, w)
remove w (some p) =
    let m = w.manager in
    let seq = sid_seq (w.id_of p) in
    let slot = slot_at m seq in
    if leb m.capacity seq
    then (negsuc 0, w)
    else if not slot.is_active || not (holds slot.link p)
    then (negsuc 0, w)
    else (
      pos 0,
      record {
        manager = record m {
          table = set m.table seq (record {
            link = next_free m.free_head;
            version = (slot.version + 1) % 2 ^ 16;
            is_active = false;
          });
          count = sub32 m.count 1;
          free_head = seq;
        };
        id_of = assign w.id_of p 0;
        is_managed = assign w.is_managed p false;
      },
    )

unfoldable pub recycle : Pool → ℕ → Pool
unfolding remove
recycle w p =
    if w.is_managed p && not (w.id_of p == 0)
    then (remove w (some p)).1
    else let m = w.manager in
      record w {
        manager = record m {
          recyclesize = add32 m.recyclesize 1;
          recyclelist = m.recyclelist ++ p ∷ [];
        };
      }

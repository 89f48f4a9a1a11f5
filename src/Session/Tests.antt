-- ===== src/Session/Tests.antt =====
-- The session ids and the slot map (src/session.h, src/session.c) at small concrete inputs.
use libevlite.Base.{◌+◌, ◌≡◌, ◌≢◌, refl, [], ◌∷◌, arith, true, false, none, some}
use libevlite.Base.Int.{pos}
use libevlite.Session.Sid.{make_sid, sid_index, sid_version, sid_seq, sid_res}
use libevlite.Session.SidLaws.{make_sid-fields}
use libevlite.Session.Manager.Defs.{Pool, create, alloc, get, remove, slot_at, take_slot}
use libevlite.Session.Manager.Invariant.{IsValid, IsLive, get_sound, create-IsValid}
use libevlite.Session.Manager.Take.{taken, taken-IsValid}
use libevlite.Session.Manager.Alloc.{Outcome, alloc_lem, taken-IsAllocated}
use libevlite.Session.Manager.Keep.{get-alloc, taken_keeps}
use libevlite.Session.Manager.Remove.{remove_lem, get-remove, get-alloc-remove}

make_sid-fields_example :
    let sid = make_sid 3 65535 77 in
    (sid_index sid ≡ pos 3) × (sid_version sid ≡ 65535) × (sid_seq sid ≡ 77) × (sid_res sid ≡ 0)
make_sid-fields_example = make_sid-fields 3 65535 77 (omega arith) (omega arith) (omega arith)

-- A manager of two slots and no session.
abbrev empty_pool : Pool
empty_pool = record { manager = create 1 2; id_of = λ p. 0; is_managed = λ p. false }

empty_pool-IsValid : IsValid (0 ∷ 1 ∷ []) empty_pool
unfolding create
empty_pool-IsValid = (create-IsValid 1 2 (λ p. 0) (λ p. false) (omega arith)).0

alloc_lem_example : Outcome true empty_pool 100 (alloc true empty_pool 100)
alloc_lem_example = alloc_lem (0 ∷ 1 ∷ []) empty_pool 100 true empty_pool-IsValid refl (omega arith)

-- Session 100 in slot 0, and then session 200 in slot 1.
abbrev one : Pool
one = taken empty_pool 100

abbrev both : Pool
both = taken one 200

one-IsValid : IsValid (1 ∷ []) one
one-IsValid = taken-IsValid 0 (1 ∷ []) empty_pool 100 empty_pool-IsValid refl (omega arith)

get_100 : get one.manager (one.id_of 100) ≡ some 100
get_100 = (taken-IsAllocated 0 (1 ∷ []) empty_pool 100 empty_pool-IsValid refl (omega arith)).found

not_200 : one.is_managed 200 ≡ false
unfolding take_slot
not_200 = refl

both-IsValid : IsValid [] both
both-IsValid = taken-IsValid 1 [] one 200 one-IsValid not_200 (omega arith)

get_200 : get both.manager (both.id_of 200) ≡ some 200
get_200 = (taken-IsAllocated 1 [] one 200 one-IsValid not_200 (omega arith)).found

get_100_in_both : get both.manager (one.id_of 100) ≡ some 100
get_100_in_both =
    taken_keeps (1 ∷ []) one 200 (one.id_of 100) 100 one-IsValid not_200 (omega arith) (omega arith)
      get_100

get_sound_example :
    ((slot_at one.manager (sid_seq (one.id_of 100))).is_active ≡ true)
    × ((slot_at one.manager (sid_seq (one.id_of 100))).version ≡ sid_version (one.id_of 100))
    × IsLive one (sid_seq (one.id_of 100)) 100
get_sound_example = get_sound (1 ∷ []) one (one.id_of 100) 100 one-IsValid get_100

get-alloc_example : get (alloc true one 200).1.manager (one.id_of 100) ≡ some 100
get-alloc_example =
    get-alloc (1 ∷ []) one 200 (one.id_of 100) 100 true one-IsValid not_200 (omega arith) get_100

remove_lem_example :
    let (rc, w') = remove one (some 100) in
    (rc ≡ pos 0)
    × IsValid (sid_seq (one.id_of 100) ∷ 1 ∷ []) w'
    × (w'.manager.count + 1 ≡ one.manager.count)
    × (get w'.manager (one.id_of 100) ≡ none)
remove_lem_example = remove_lem (1 ∷ []) one (one.id_of 100) 100 one-IsValid get_100

get-remove_example : get (remove both (some 200)).1.manager (one.id_of 100) ≡ some 100
get-remove_example =
    get-remove [] both (both.id_of 200) 200 (one.id_of 100) 100 both-IsValid get_200 get_100_in_both
      (omega arith)

get-alloc-remove_example :
    let (answer, w') = alloc true (remove one (some 100)).1 200 in
    (answer ≡ some 200)
    × (get w'.manager (one.id_of 100) ≡ none)
    × (get w'.manager (w'.id_of 200) ≡ some 200)
    × (w'.id_of 200 ≢ one.id_of 100)
get-alloc-remove_example =
    get-alloc-remove (1 ∷ []) one (one.id_of 100) 100 200 true one-IsValid get_100 not_200
      (omega arith)

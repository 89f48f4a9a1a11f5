-- ===== src/Message/Defs.antt =====
-- `struct message` of src/message.h and the message_ functions of src/message.c. `none` for `buffer`
-- and `tolist` is NULL; free() leaves no trace. The counters are int32_t, kept as their 32 bits.
use libevlite.Base.{ℕ, Bool, Option, none, some, List, ◌==◌, if◌then◌else◌, length}
use libevlite.Base.Int.{ℤ, pos, negsuc}
use libevlite.Base.Words.{add32}
use libevlite.Message.SidList.{SidList, ids, add, adds, create as sidlist_create}

pub record Message : Type 0 where
  pub nsuccess : ℕ
  pub nfailure : ℕ
  pub buffer : Option (List ℕ)
  pub length : ℕ
  pub tolist : Option SidList

unfoldable pub message_create : Bool → Option Message
message_create allocated =
    if allocated
    then some (record { nsuccess = 0; nfailure = 0; buffer = none; length = 0; tolist = none })
    else none

-- The result of a call on the list, stored in the message; `none` is a use of NULL.
unfoldable pub with_list : Message → Option (ℤ × SidList) → Option (ℤ × Message)
with_list m none = none
with_list m (some (rc, l)) = some (rc, record m { tolist = some l })

-- sidlist_count() of a list that may be NULL.
unfoldable pub list_count : Option SidList → ℕ
list_count none = 0
list_count (some l) = l.count

-- The list of the message, or a new one of `size` ids.
unfoldable pub list_or_new : ℕ → Bool → Option SidList → ℕ → Option SidList
unfolding sidlist_create
list_or_new junk created none size = sidlist_create junk created size
list_or_new junk created (some l) size = some l

-- `created` is the answer of malloc() in sidlist_create(), `allocated` that of realloc().
module _ (junk : ℕ) (created allocated : Bool) where
  unfoldable pub then_add : Message → Option SidList → ℕ → Option (ℤ × Message)
  unfolding add with_list
  then_add m none id = some (negsuc 0, m)
  then_add m (some l) id = with_list m (add junk allocated l id)

  unfoldable pub add_receiver : Message → ℕ → Option (ℤ × Message)
  unfolding list_or_new then_add
  add_receiver m id = then_add m (list_or_new junk created m.tolist 8) id

  unfoldable pub then_adds : Message → Option SidList → List ℕ → Option (ℤ × Message)
  unfolding adds with_list
  then_adds m none xs = some (negsuc 0, m)
  then_adds m (some l) xs = with_list m (adds junk allocated l xs)

  unfoldable pub add_receivers : Message → List ℕ → Option (ℤ × Message)
  unfolding list_or_new then_adds
  add_receivers m xs = then_adds m (list_or_new junk created m.tolist (length xs)) xs

  -- sidlist_append() of the old list to the new one.
  unfoldable pub replace : Message → Option SidList → Option SidList → Option (ℤ × Message)
  unfolding adds
  replace m old none = some (negsuc 0, m)
  replace m none (some l) = some (pos 0, record m { tolist = some l })
  replace m (some o) (some l) = elim (adds junk allocated l (ids o)) [
    | none ↦ none
    | some (rc, l') ↦ some (pos 0, record m { tolist = some l' })
  ]

  unfoldable pub reserve_receivers : Message → ℕ → Option (ℤ × Message)
  unfolding sidlist_create list_count replace
  reserve_receivers m count =
      replace m m.tolist (sidlist_create junk created (add32 count (list_count m.tolist)))

unfoldable pub set_receivers : Message → Option SidList → ℤ × Message
set_receivers m list = (pos 0, record m { tolist = list })

unfoldable pub set_buffer : Message → Option (List ℕ) → ℕ → ℤ × Message
set_buffer m buffer len = (pos 0, record m { length = len; buffer = buffer })

-- `bytes` are the `len` bytes copied; `none` is the copy to NULL.
unfoldable pub add_buffer : Bool → Message → List ℕ → Option (ℤ × Message)
add_buffer allocated m bytes =
    if allocated
    then some (pos 0, record m { length = length bytes; buffer = some bytes })
    else none

unfoldable pub add_failure : Message → Message
add_failure m = record m { nfailure = add32 m.nfailure 1 }

unfoldable pub add_success : Message → Message
add_success m = record m { nsuccess = add32 m.nsuccess 1 }

unfoldable pub is_complete : Message → Bool
unfolding list_count
is_complete m = list_count m.tolist == add32 m.nsuccess m.nfailure

-- ===== src/Message/SidList.antt =====
-- `struct sidlist` of src/sidlist.h and the functions of src/sidlist.c, in the build of the Makefile
-- (NDEBUG: the assertions on realloc() are off). `entries` is the whole block of `size` ids.
use libevlite.Base.{
  ℕ, zero, suc, ◌+◌, ◌-◌, ◌*◌, ◌%◌, Bool, Option, none, some, List, ◌++◌, ltb, ◌==◌, if◌then◌else◌,
  length, get_or, set, take, drop, replicate,
}
use libevlite.Base.Int.{ℤ, pos, negsuc}
use libevlite.Base.Words.{u32_mod, add32, sub32}

pub record SidList : Type 0 where
  pub count : ℕ
  pub size : ℕ
  pub entries : List ℕ

-- The list: the first `count` ids.
abbrev pub ids : SidList → List ℕ
ids l = take l.count l.entries

-- `junk` is what malloc() and realloc() leave in new memory, `allocated` whether they succeed.
unfoldable pub create : ℕ → Bool → ℕ → Option SidList
create junk allocated size =
    let n = if size == 0 then 8 else size in
    if allocated then some (record { count = 0; size = n; entries = replicate n junk }) else none

-- An int32_t stored in a uint32_t.
abbrev pub to_u32 : ℤ → ℕ
to_u32 (pos n) = n % u32_mod
to_u32 (negsuc n) = (u32_mod - (suc n)) % u32_mod

-- `index == -1 ? self->count - 1 : index`
abbrev pub position : SidList → ℤ → ℕ
position l (negsuc zero) = sub32 l.count 1
position l index = to_u32 index

unfoldable pub get : SidList → ℤ → ℕ
get l index = let id = position l index in if ltb id l.count then get_or l.entries id 0 else 0

-- realloc() to `n` ids; `none` is the use of NULL where it fails.
unfoldable pub resize : ℕ → Bool → ℕ → SidList → Option SidList
resize junk allocated n l =
    if allocated
    then some (record l { size = n; entries = take n l.entries ++ replicate (n - l.size) junk })
    else none

abbrev pub add_last : ℕ → SidList → SidList
add_last id l = record l { entries = set l.entries l.count id; count = add32 l.count 1 }

unfoldable pub add : ℕ → Bool → SidList → ℕ → Option (ℤ × SidList)
unfolding resize
add junk allocated l id =
    if ltb l.size (add32 l.count 1)
    then elim (resize junk allocated ((l.size * 2) % u32_mod) l) [
      | none ↦ none
      | some l' ↦ some (pos 0, add_last id l')
    ]
    else some (pos 0, add_last id l)

-- memcpy() behind the ids.
abbrev pub add_all : List ℕ → SidList → SidList
add_all xs l = record l {
  entries = take l.count l.entries ++ (xs ++ drop (l.count + length xs) l.entries);
  count = add32 l.count (length xs);
}

unfoldable pub adds : ℕ → Bool → SidList → List ℕ → Option (ℤ × SidList)
unfolding resize
adds junk allocated l xs =
    let totalcount = add32 l.count (length xs) in
    if ltb l.size totalcount
    then elim (resize junk allocated totalcount l) [
      | none ↦ none
      | some l' ↦ some (pos 0, add_all xs l')
    ]
    else some (pos 0, add_all xs l)

-- The id removed, or 0.
unfoldable pub del : SidList → ℤ → ℕ × SidList
del l index =
    let id = position l index in
    let last = l.count - 1 in
    let moved = if id == last then l.entries else set l.entries id (get_or l.entries last 0) in
    if ltb id l.count
    then (get_or l.entries id 0, record l { count = last; entries = moved })
    else (0, l)

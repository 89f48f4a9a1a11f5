-- ===== src/Table/Defs.antt =====
-- `struct endpoint` and `struct ephashtable` of src/ephashtable.h, and the functions of
-- src/ephashtable.c. A host is the bytes of the string, fewer than 64, with no NUL; `key_of` is what
-- snprintf() prints for a host and a port. A list of a bucket is its chain of `next` pointers.
use Prim.Native.Nat.{bit_and}
use libevlite.Base.{
  ℕ, ◌%◌, Bool, true, false, ◌&&◌, Option, none, some, List, [], ◌∷◌, ◌++◌, ltb, ◌==◌,
  if◌then◌else◌, get_or, set, replicate,
}
use libevlite.Base.Words.{add64, sub64, u32_mod}
use libevlite.Utils.Defs.{nextpow2}
use libevlite.Table.Hash.{hash_function}

-- `value` is NULL, or the object behind the entry, which is known by the address of the entry.
pub record Endpoint : Type 0 where
  pub port : ℕ
  pub host : List ℕ
  pub value : Option ℕ

pub record Table : Type 0 where
  pub table : List (List Endpoint)
  pub size : ℕ
  pub sizemask : ℕ
  pub count : ℕ
  pub objsize : ℕ
  pub helper : Bool

-- A call of the helper: what it is told, and the entry.
abbrev pub Calls : Type 0
Calls = List (ℕ × Endpoint)

abbrev pub invoke : Table → ℕ → Endpoint → Calls
invoke t method entry = if t.helper then (method, entry) ∷ [] else []

-- strcmp() == 0
unfoldable pub same_bytes : List ℕ → List ℕ → Bool
same_bytes [] [] = true
same_bytes [] (y ∷ ys) = false
same_bytes (x ∷ xs) [] = false
same_bytes (x ∷ xs) (y ∷ ys) = let rest = same_bytes xs ys in if x == y then rest else false

unfoldable pub is_at : List ℕ → ℕ → Endpoint → Bool
unfolding same_bytes
is_at host port e = port == e.port && same_bytes host e.host

unfoldable pub create : ℕ → ℕ → Bool → Table
unfolding nextpow2
create count objsize helper =
    let size = nextpow2 (count % u32_mod) in
    record {
      table = replicate size [];
      size = size;
      sizemask = sub64 size 1;
      count = 0;
      objsize = objsize;
      helper = helper;
    }

unfoldable pub find_in : List ℕ → ℕ → List Endpoint → Option ℕ
unfolding is_at
find_in host port [] = none
find_in host port (e ∷ es) =
    let rest = find_in host port es in if is_at host port e then e.value else rest

-- The chain without the first entry of a key, and that entry.
unfoldable pub unchain : List ℕ → ℕ → List Endpoint → Option Endpoint × List Endpoint
unfolding is_at
unchain host port [] = (none, [])
unchain host port (e ∷ es) =
    let (gone, rest) = unchain host port es in
    if is_at host port e then (some e, es) else (gone, e ∷ rest)

-- The loop of ephashtable_destroy() over one bucket.
abbrev pub free_all : Table → List Endpoint → Calls
free_all t [] = []
free_all t (e ∷ es) = invoke t 3 e ++ free_all t es

module _ (key_of : List ℕ → ℕ → List ℕ) where
  unfoldable pub get_hashkey : List ℕ → ℕ → ℕ
  unfolding hash_function
  get_hashkey host port = hash_function (key_of host port)

  unfoldable pub bucket_index : Table → List ℕ → ℕ → ℕ
  unfolding get_hashkey
  bucket_index t host port = bit_and (get_hashkey host port) t.sizemask

  unfoldable pub find : Table → List ℕ → ℕ → Option ℕ
  unfolding bucket_index find_in
  find t host port =
      if t.count == 0
      then none
      else find_in host port (get_or t.table (bucket_index t host port) [])

  unfoldable pub remove_found : Table → ℕ → Option Endpoint × List Endpoint → Calls × Table
  remove_found t index (none, rest) = ([], t)
  remove_found t index (some e, rest) =
      (invoke t 2 e, record t { table = set t.table index rest; count = sub64 t.count 1 })

  unfoldable pub remove : Table → List ℕ → ℕ → Calls × Table
  unfolding bucket_index unchain remove_found
  remove t host port =
      let index = bucket_index t host port in
      if t.count == 0
      then ([], t)
      else remove_found t index (unchain host port (get_or t.table index []))

  -- `entry` is the address that calloc() answers; a NULL is used.
  unfoldable pub append : Table → List ℕ → ℕ → ℕ → Option ℕ × Calls × Table
  unfolding bucket_index
  append t host port entry =
      let index = bucket_index t host port in
      let e : Endpoint = record {
        port = port;
        host = host;
        value = if ltb 0 t.objsize then some entry else none;
      } in
      (
        e.value,
        invoke t 1 e,
        record t {
          count = add64 t.count 1;
          table = set t.table index (e ∷ get_or t.table index []);
        },
      )

-- ephashtable_destroy(): the entries that it frees, in order.
unfoldable pub destroy_from : Table → List (List Endpoint) → Calls
destroy_from t [] = []
destroy_from t (b ∷ bs) = free_all t b ++ destroy_from t bs

unfoldable pub destroy : Table → Calls
unfolding destroy_from
destroy t = destroy_from t t.table

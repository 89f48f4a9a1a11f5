-- ===== src/Table/Tests.antt =====
-- The hash table (src/ephashtable.c) at a small concrete input.
use libevlite.Base.{ℕ, ◌+◌, ◌^◌, ◌<◌, ◌≡◌, List, [], ◌∷◌, arith, true, ltb}
use libevlite.Table.Hash.{hash_function}
use libevlite.Table.Defs.{Table, create}
use libevlite.Table.Laws.{stack}
use libevlite.Table.Run.{put, drop_one, look, run, run_stacks, run-run_stacks, create-IsTable}

-- A printed key: the bytes of the host, two colons, and the port as one byte.
abbrev plain_key : List ℕ → ℕ → List ℕ
plain_key [] port = 58 ∷ 58 ∷ port ∷ []
plain_key (c ∷ host) port = c ∷ plain_key host port

-- "a::7"
hash_of_key : hash_function (plain_key (97 ∷ []) 7) < 2 ^ 32
unfolding hash_function libevlite.Table.Hash.mix libevlite.Table.Hash.mix_word
hash_of_key = omega arith

abbrev small_table : Table
small_table = create 4 16 true

few_calls : small_table.count + 3 < 2 ^ 64
unfolding create
few_calls = omega arith

run-run_stacks_example :
    run plain_key small_table (put (97 ∷ []) 7 100 ∷ drop_one (97 ∷ []) 8 ∷ look (97 ∷ []) 7 ∷ [])
    ≡ run_stacks
        (ltb 0 small_table.objsize)
        (stack plain_key small_table)
        (put (97 ∷ []) 7 100 ∷ drop_one (97 ∷ []) 8 ∷ look (97 ∷ []) 7 ∷ [])
run-run_stacks_example =
    run-run_stacks plain_key (put (97 ∷ []) 7 100 ∷ drop_one (97 ∷ []) 8 ∷ look (97 ∷ []) 7 ∷ [])
      small_table (create-IsTable plain_key 4 16 true (omega arith) (omega arith)).0 few_calls

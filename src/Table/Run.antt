-- ===== src/Table/Run.antt =====
-- Whole histories of the hash table (src/ephashtable.c).
use libevlite.Base.{
  ℕ, zero, suc, ◌%◌, replicate, get_or, length-replicate, ◌+◌, ◌^◌, ◌≤◌, ◌<◌, ◌≡◌, refl, sym, ap,
  ap₂, ◌∙◌, Bool, Option, none, some, List, [], ◌∷◌, ltb, if◌then◌else◌, length, arith,
}
use libevlite.Base.Words.{u32_mod}
use libevlite.Base.Bits.{pow_pos, pow_mono}
use libevlite.Utils.Defs.{nextpow2}
use libevlite.Utils.Power.{nextpow2_lem}
use libevlite.Table.Defs.{Endpoint, create, Table, find, remove, append}
use libevlite.Table.Stack.{values, top, pop, same_endpoint}
use libevlite.Table.Laws.{
  total, IsTable, Stacks, with_stack, stack, find-stack, append-IsTable, append-stack,
  remove-Removed,
}

-- A call, on a host and a port; `put` has the address of its new entry.
pub data Op : Type 0 where
  put : List ℕ → ℕ → ℕ → Op
  drop_one : List ℕ → ℕ → Op
  look : List ℕ → ℕ → Op

-- The answers of the calls on stacks; a removal answers nothing.
unfoldable pub run_stacks : Bool → Stacks → List Op → List (Option ℕ)
run_stacks objects s [] = []
run_stacks objects s (put host port entry ∷ ops) =
    let v = if objects then some entry else none in
    v ∷ run_stacks objects (with_stack s host port (v ∷ s host port)) ops
run_stacks objects s (drop_one host port ∷ ops) =
    none ∷ run_stacks objects (with_stack s host port (pop (s host port))) ops
run_stacks objects s (look host port ∷ ops) = top (s host port) ∷ run_stacks objects s ops

no_entries : (n : ℕ) → total (replicate n []) ≡ 0
no_entries zero = refl
no_entries (suc n) = omega (arith, no_entries n)

empty_bucket : (n i : ℕ) → get_or {A = List Endpoint} (replicate n []) i [] ≡ []
empty_bucket zero i = refl
empty_bucket (suc n) zero = refl
empty_bucket (suc n) (suc i) = empty_bucket n i

module _ (key_of : List ℕ → ℕ → List ℕ) where
  unfoldable pub run : Table → List Op → List (Option ℕ)
  unfolding find remove append
  run t [] = []
  run t (put host port entry ∷ ops) =
      let (v, calls, t') = append key_of t host port entry in v ∷ run t' ops
  run t (drop_one host port ∷ ops) = none ∷ run (remove key_of t host port).1 ops
  run t (look host port ∷ ops) = find key_of t host port ∷ run t ops

  -- The objects are not of size 0.
  abbrev objects_of : Table → Bool
  objects_of t = ltb 0 t.objsize

  same_after :
      (s s' : Stacks) (host : List ℕ) (port : ℕ) (vs vs' : List (Option ℕ))
      → ((host' : List ℕ) (port' : ℕ) → s host' port' ≡ s' host' port')
      → vs ≡ vs'
      → (host' : List ℕ) (port' : ℕ)
      → with_stack s host port vs host' port' ≡ with_stack s' host port vs' host' port'
  same_after s s' host port vs vs' same e host' port' =
      ap₂ (λ a b. if same_endpoint host' port' host port then a else b) e (same host' port')

  run_follows :
      (ops : List Op) (t : Table) (s : Stacks)
      → IsTable t
      → t.count + length ops < 2 ^ 64
      → ((host : List ℕ) (port : ℕ) → stack key_of t host port ≡ s host port)
      → run t ops ≡ run_stacks (objects_of t) s ops
  unfolding run run_stacks
  run_follows [] t s v small same = refl
  run_follows (put host port entry ∷ ops) t s v small same =
      let (v', more) = append-IsTable key_of t host port entry v (omega (arith, small)) in
      let value : Option ℕ = if objects_of t then some entry else none in
      let now : Stacks = with_stack s host port (value ∷ s host port) in
      ap (λ rest. value ∷ rest)
        (run_follows ops (append key_of t host port entry).2 now v' (omega (arith, more, small))
          (λ host' port'.
            append-stack key_of t host port entry v host' port'
            ∙ same_after (stack key_of t) s host port (value ∷ stack key_of t host port)
                (value ∷ s host port) same (ap (λ vs. value ∷ vs) (same host port)) host' port'))
  run_follows (drop_one host port ∷ ops) t s v small same =
      let (v', less, objects, now) = remove-Removed key_of t host port v (omega (arith, small)) in
      ap (λ rest. none ∷ rest)
        (run_follows ops (remove key_of t host port).1 (with_stack s host port (pop (s host port)))
            v' (omega (arith, less, small))
            (λ host' port'.
              now host' port'
              ∙ same_after (stack key_of t) s host port (pop (stack key_of t host port))
                  (pop (s host port)) same (ap pop (same host port)) host' port')
          ∙ ap (λ n. run_stacks (ltb 0 n) (with_stack s host port (pop (s host port))) ops) objects)
  run_follows (look host port ∷ ops) t s v small same =
      ap₂ (λ r rest. r ∷ rest) (find-stack key_of t host port v ∙ ap top (same host port))
        (run_follows ops t s v (omega (arith, small)) same)

  -- Whatever a key hashes to, no history of appends, removals and look-ups tells a valid table from a stack
  -- of values for each endpoint: a look-up answers the newest value of its endpoint that was not removed, and
  -- a removal takes that one; while the entries and the calls left are fewer than 2 ^ 64.
  pub run-run_stacks :
      (ops : List Op) (t : Table)
      → IsTable t
      → t.count + length ops < 2 ^ 64
      → run t ops ≡ run_stacks (ltb 0 t.objsize) (stack key_of t) ops
  run-run_stacks ops t v small = run_follows ops t (stack key_of t) v small (λ host port. refl)

  -- A new table of 1 to 2 ^ 31 buckets is valid, and has no value for any endpoint.
  pub create-IsTable :
      (count objsize : ℕ) (helper : Bool)
      → 0 < count
      → count ≤ 2 ^ 31
      → IsTable (create count objsize helper)
        × ((host : List ℕ) (port : ℕ) → stack key_of (create count objsize helper) host port ≡ [])
  unfolding create values
  create-IsTable count objsize helper h le =
      let word : count % u32_mod ≡ count = omega arith in
      let (n, small, e, _, _) = nextpow2_lem count h le in
      let size : nextpow2 (count % u32_mod) ≡ 2 ^ n = ap nextpow2 word ∙ e in
      let positive = pow_pos n in
      let bound = pow_mono n 31 small in
      (
        record {
          power = (n, size);
          masked = omega (arith, size, positive, bound);
          stored = length-replicate (nextpow2 (count % u32_mod)) [];
          counted = sym (no_entries (nextpow2 (count % u32_mod)));
        },
        λ host port. ap (values host port) (empty_bucket (nextpow2 (count % u32_mod)) _),
      )

-- ===== src/Table/Laws.antt =====
-- The hash table of src/ephashtable.c against a stack of values for each endpoint.
use native.Mathlib.Nat.{mod-lt}
use libevlite.Base.{
  ℕ, zero, suc, ◌+◌, ◌-◌, ◌^◌, ◌≤◌, ◌<◌, ◌≡◌, inl, inr, refl, sym, ap, ◌∙◌, subst, false, Option,
  none, some, List, [], ◌∷◌, ltb, ◌==◌, if◌then◌else◌, get_or, set, length, arith, Bool-cases,
  get_or-set_self, get_or-set_ne, length-set, ℕ_discrete,
}
use libevlite.Base.Words.{add64, sub64}
use libevlite.Base.Bits.{bit_and-mask, pow_pos}
use libevlite.Table.Defs.{
  Endpoint, Table, is_at, unchain, bucket_index, find, remove, remove_found, append,
}
use libevlite.Table.Stack.{
  values, top, pop, find_in-values, values-unchain, values-unchain_other, same_endpoint,
  same_endpoint_self, same_endpoint_eq, Unchained, unchain-Unchained,
}

-- How many entries there are.
abbrev pub total : List (List Endpoint) → ℕ
total [] = 0
total (b ∷ bs) = length b + total bs

total-set :
    (bs : List (List Endpoint)) (i : ℕ) (b : List Endpoint)
    → i < length bs
    → total (set bs i b) + length (get_or bs i []) ≡ total bs + length b
total-set [] i b h = absurd (omega arith)
total-set (c ∷ bs) zero b h = omega arith
total-set (c ∷ bs) (suc i) b h = omega (arith, total-set bs i b (omega arith))

length-zero : (b : List Endpoint) → length b ≡ 0 → b ≡ []
length-zero [] h = refl
length-zero (e ∷ b) h = absurd (omega (arith, h))

all_empty : (bs : List (List Endpoint)) (i : ℕ) → total bs ≡ 0 → get_or bs i [] ≡ []
all_empty [] i h = refl
all_empty (b ∷ bs) zero h = length-zero b (omega (arith, h))
all_empty (b ∷ bs) (suc i) h = all_empty bs i (omega (arith, h))

-- A table of a power of two of buckets, which counts its entries.
pub record IsTable (t : Table) : Type 0 where
  pub power : (k : ℕ) × (t.size ≡ 2 ^ k)
  pub masked : t.sizemask ≡ t.size - 1
  pub stored : length t.table ≡ t.size
  pub counted : t.count ≡ total t.table

module _ (key_of : List ℕ → ℕ → List ℕ) where
  index-lt :
      (t : Table) (host : List ℕ) (port : ℕ)
      → IsTable t
      → bucket_index key_of t host port < length t.table
  unfolding bucket_index
  index-lt t host port v =
      let (k, e) = v.power in rw (v.stored, v.masked, e, bit_and-mask _ k) (mod-lt _ (pow_pos k))

  -- The values of an endpoint in the table.
  abbrev pub stack : Table → List ℕ → ℕ → List (Option ℕ)
  stack t host port = values host port (get_or t.table (bucket_index key_of t host port) [])

-- A stack of values for each endpoint, and the same with one replaced.
abbrev pub Stacks : Type 0
Stacks = List ℕ → ℕ → List (Option ℕ)

abbrev pub with_stack : Stacks → List ℕ → ℕ → List (Option ℕ) → Stacks
with_stack s host port vs host' port' =
    if same_endpoint host' port' host port then vs else s host' port'

module _ (key_of : List ℕ → ℕ → List ℕ) where
  -- A bucket written back with another stack for one endpoint, and the same for the others.
  stack-set :
      (t : Table) (host : List ℕ) (port : ℕ) (b : List Endpoint) (c : ℕ) (vs : List (Option ℕ))
      → IsTable t
      → values host port b ≡ vs
      → ((host' : List ℕ) (port' : ℕ)
          → same_endpoint host' port' host port ≡ false
          → values host' port' b
            ≡ values host' port' (get_or t.table (bucket_index key_of t host port) []))
      → (host' : List ℕ) (port' : ℕ)
      → stack key_of
          (record t { table = set t.table (bucket_index key_of t host port) b; count = c })
          host'
          port'
        ≡ with_stack (stack key_of t) host port vs host' port'
  unfolding bucket_index
  stack-set t host port b c vs v here others host' port' =
      let i = bucket_index key_of t host port in
      let lt = index-lt key_of t host port v in
      elim (Bool-cases (same_endpoint host' port' host port)) [
        | inl same ↦
            let (hosts, ports) = same_endpoint_eq host' port' host port same in
            rw (same, hosts, ports) (rw (get_or-set_self t.table i b [] lt) here)
        | inr differ ↦ rw differ (elim (ℕ_discrete i (bucket_index key_of t host' port')) [
          | yes e ↦
              ap (λ k. values host' port' (get_or (set t.table i b) k [])) (sym e)
              ∙ ap (values host' port') (get_or-set_self t.table i b [] lt)
              ∙ others host' port' differ
              ∙ ap (λ k. values host' port' (get_or t.table k [])) e
          | no ne ↦
              ap (values host' port')
                (get_or-set_ne t.table i (bucket_index key_of t host' port') b [] ne)
        ])
      ]

  pub find-stack :
      (t : Table) (host : List ℕ) (port : ℕ)
      → IsTable t
      → find key_of t host port ≡ top (stack key_of t host port)
  unfolding find values
  find-stack t host port v = elim (Bool-cases (t.count == 0)) [
    | inl nothing ↦
        let none_there =
          all_empty t.table (bucket_index key_of t host port)
            (ground (arith, v.counted, nothing)) in
        rw (nothing, none_there) refl
    | inr some_there ↦
        rw some_there
          (find_in-values host port (get_or t.table (bucket_index key_of t host port) []))
  ]

  -- What append writes.
  abbrev entry_of : Table → List ℕ → ℕ → ℕ → Endpoint
  entry_of t host port entry = record {
    port = port;
    host = host;
    value = if ltb 0 t.objsize then some entry else none;
  }

  pub append-IsTable :
      (t : Table) (host : List ℕ) (port entry : ℕ)
      → IsTable t
      → t.count + 1 < 2 ^ 64
      → IsTable (append key_of t host port entry).2
        × ((append key_of t host port entry).2.count ≡ t.count + 1)
  unfolding append
  append-IsTable t host port entry v small =
      let i = bucket_index key_of t host port in
      let lt = index-lt key_of t host port v in
      let e = entry_of t host port entry in
      let more = total-set t.table i (e ∷ get_or t.table i []) lt in
      (
        record {
          power = v.power;
          masked = v.masked;
          stored = length-set t.table i _ ∙ v.stored;
          counted = omega (arith, more, v.counted, small);
        },
        omega (arith, small),
      )

  pub append-stack :
      (t : Table) (host : List ℕ) (port entry : ℕ)
      → IsTable t
      → (host' : List ℕ) (port' : ℕ)
      → stack key_of (append key_of t host port entry).2 host' port'
        ≡ with_stack
            (stack key_of t)
            host
            port
            ((append key_of t host port entry).0 ∷ stack key_of t host port)
            host'
            port'
  unfolding append values is_at
  append-stack t host port entry v =
      let i = bucket_index key_of t host port in
      let e = entry_of t host port entry in
      let self = same_endpoint_self host port in
      stack-set t host port (e ∷ get_or t.table i []) (add64 t.count 1) _ v (rw self refl)
        (λ host' port' differ. rw differ refl)

  -- Where an endpoint has no value, there is none to take.
  nothing_taken :
      (s : Stacks) (host : List ℕ) (port : ℕ)
      → s host port ≡ []
      → (host' : List ℕ) (port' : ℕ)
      → s host' port' ≡ with_stack s host port (pop (s host port)) host' port'
  nothing_taken s host port empty host' port' =
      elim (Bool-cases (same_endpoint host' port' host port)) [
        | inl same ↦
            let (hosts, ports) = same_endpoint_eq host' port' host port same in
            rw (same, hosts, ports) (empty ∙ sym (ap pop empty))
        | inr differ ↦ rw differ refl
      ]

  -- After a removal: the table is valid, counts no more than before, and the newest value of the endpoint is gone.
  abbrev pub Removed : Table → List ℕ → ℕ → Table → Type 0
  Removed t host port t' =
      IsTable t'
      × (t'.count ≤ t.count)
      × (t'.objsize ≡ t.objsize)
      × ((host' : List ℕ) (port' : ℕ)
          → stack key_of t' host' port'
            ≡ with_stack (stack key_of t) host port (pop (stack key_of t host port)) host' port')

  remove_found-Removed :
      (t : Table) (host : List ℕ) (port : ℕ) (r : Option Endpoint × List Endpoint)
      → IsTable t
      → t.count < 2 ^ 64
      → r ≡ unchain host port (get_or t.table (bucket_index key_of t host port) [])
      → Removed t host port (remove_found key_of t (bucket_index key_of t host port) r).1
  unfolding remove_found
  remove_found-Removed t host port (none, rest) v small e =
      let b = get_or t.table (bucket_index key_of t host port) [] in
      let (empty, _) = subst (Unchained host port b) (sym e) (unchain-Unchained host port b) in
      (v, omega arith, refl, nothing_taken (stack key_of t) host port empty)
  remove_found-Removed t host port (some x, rest) v small e =
      let i = bucket_index key_of t host port in
      let b = get_or t.table i [] in
      let lt = index-lt key_of t host port v in
      let less = subst (Unchained host port b) (sym e) (unchain-Unchained host port b) in
      let more = total-set t.table i rest lt in
      (
        record {
          power = v.power;
          masked = v.masked;
          stored = length-set t.table i rest ∙ v.stored;
          counted = omega (arith, more, less, v.counted, small);
        },
        omega (arith, more, less, v.counted, small),
        refl,
        stack-set t host port rest (sub64 t.count 1) (pop (stack key_of t host port)) v
            (ap (λ q. values host port q.1) e ∙ values-unchain host port b)
            (λ host' port' differ.
              ap (λ q. values host' port' q.1) e
              ∙ values-unchain_other host port host' port' b differ),
      )

  pub remove-Removed :
      (t : Table) (host : List ℕ) (port : ℕ)
      → IsTable t
      → t.count < 2 ^ 64
      → Removed t host port (remove key_of t host port).1
  unfolding remove values
  remove-Removed t host port v small = elim (Bool-cases (t.count == 0)) [
    | inl nothing ↦
        let empty =
          all_empty t.table (bucket_index key_of t host port)
            (ground (arith, v.counted, nothing)) in
        rw nothing (
          v,
          omega arith,
          refl,
          nothing_taken (stack key_of t) host port (ap (values host port) empty),
        )
    | inr some_there ↦ rw some_there (
        remove_found-Removed t host port
          (unchain host port (get_or t.table (bucket_index key_of t host port) [])) v small refl)
  ]

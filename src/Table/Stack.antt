-- ===== src/Table/Stack.antt =====
-- A chain of entries (src/ephashtable.c) by the values that it has for each endpoint.
use libevlite.Base.{
  ℕ, suc, ◌≡◌, inl, inr, refl, sym, ap, ap₂, ◌∙◌, Bool, true, false, ◌&&◌, Option, none, some, List,
  [], ◌∷◌, ◌==◌, ==_iff, if◌then◌else◌, length, arith, Bool-cases,
}
use libevlite.Table.Defs.{Endpoint, same_bytes, is_at, find_in, unchain}

same_bytes_eq : (xs ys : List ℕ) → same_bytes xs ys ≡ true → xs ≡ ys
unfolding same_bytes
same_bytes_eq [] [] h = refl
same_bytes_eq [] (y ∷ ys) h = cc
same_bytes_eq (x ∷ xs) [] h = cc
same_bytes_eq (x ∷ xs) (y ∷ ys) h = elim (Bool-cases (x == y)) [
  | inl e ↦ ap₂ (λ a rest. a ∷ rest) ((==_iff x y).0 e) (same_bytes_eq xs ys (ground (arith, h, e)))
  | inr e ↦ absurd (ground (arith, h, e))
]

same_bytes_refl : (xs : List ℕ) → same_bytes xs xs ≡ true
unfolding same_bytes
same_bytes_refl [] = refl
same_bytes_refl (x ∷ xs) = let e : (x == x) ≡ true = ground arith in rw e (same_bytes_refl xs)

pub is_at_key :
    (host : List ℕ) (port : ℕ) (e : Endpoint)
    → is_at host port e ≡ true
    → (host ≡ e.host) × (port ≡ e.port)
unfolding is_at
is_at_key host port e h = (same_bytes_eq host e.host (ground (arith, h)), ground (arith, h))

-- The values of an endpoint, newest first.
unfoldable pub values : List ℕ → ℕ → List Endpoint → List (Option ℕ)
values host port [] = []
values host port (e ∷ es) =
    let rest = values host port es in if is_at host port e then e.value ∷ rest else rest

abbrev pub top : List (Option ℕ) → Option ℕ
top [] = none
top (v ∷ vs) = v

abbrev pub pop : List (Option ℕ) → List (Option ℕ)
pop [] = []
pop (v ∷ vs) = vs

pub find_in-values :
    (host : List ℕ) (port : ℕ) (es : List Endpoint)
    → find_in host port es ≡ top (values host port es)
unfolding find_in values
find_in-values host port [] = refl
find_in-values host port (e ∷ es) = elim (Bool-cases (is_at host port e)) [
  | inl here ↦ rw here refl
  | inr away ↦ rw away (find_in-values host port es)
]

pub values-unchain :
    (host : List ℕ) (port : ℕ) (es : List Endpoint)
    → values host port (unchain host port es).1 ≡ pop (values host port es)
unfolding unchain values
values-unchain host port [] = refl
values-unchain host port (e ∷ es) = elim (Bool-cases (is_at host port e)) [
  | inl here ↦ rw here refl
  | inr away ↦ rw (away, away) (values-unchain host port es)
]

-- The endpoint of an entry, as one value.
abbrev pub same_endpoint : List ℕ → ℕ → List ℕ → ℕ → Bool
same_endpoint host port host' port' = port == port' && same_bytes host host'

pub same_endpoint_self : (host : List ℕ) (port : ℕ) → same_endpoint host port host port ≡ true
same_endpoint_self host port = let e = same_bytes_refl host in ground arith

pub same_endpoint_eq :
    (host : List ℕ) (port : ℕ) (host' : List ℕ) (port' : ℕ)
    → same_endpoint host port host' port' ≡ true
    → (host ≡ host') × (port ≡ port')
same_endpoint_eq host port host' port' h =
    (same_bytes_eq host host' (ground (arith, h)), ground (arith, h))

-- An entry is at one endpoint only.
pub at_one :
    (host : List ℕ) (port : ℕ) (host' : List ℕ) (port' : ℕ) (e : Endpoint)
    → is_at host port e ≡ true
    → is_at host' port' e ≡ same_endpoint host' port' host port
unfolding is_at
at_one host port host' port' e h =
    let (hosts, ports) = is_at_key host port e h in rw (sym hosts, sym ports) refl

-- Taking out an entry of one endpoint leaves the others.
pub values-unchain_other :
    (host : List ℕ) (port : ℕ) (host' : List ℕ) (port' : ℕ) (es : List Endpoint)
    → same_endpoint host' port' host port ≡ false
    → values host' port' (unchain host port es).1 ≡ values host' port' es
unfolding unchain values
values-unchain_other host port host' port' [] h = refl
values-unchain_other host port host' port' (e ∷ es) h = elim (Bool-cases (is_at host port e)) [
  | inl here ↦ let away = at_one host port host' port' e here ∙ h in rw (here, away) refl
  | inr away ↦ rw away (
      ap (λ vs. if is_at host' port' e then e.value ∷ vs else vs)
        (values-unchain_other host port host' port' es h))
]

-- Where nothing is taken out there is nothing, and else one entry less.
abbrev pub Unchained : List ℕ → ℕ → List Endpoint → Option Endpoint × List Endpoint → Type 0
Unchained host port es (none, rest) = (values host port es ≡ []) × (rest ≡ es)
Unchained host port es (some e, rest) = length es ≡ suc (length rest)

unchain-Unchained_step :
    (host : List ℕ) (port : ℕ) (e : Endpoint) (es : List Endpoint)
    (r : Option Endpoint × List Endpoint)
    → is_at host port e ≡ false
    → Unchained host port es r
    → Unchained host port (e ∷ es) (r.0, e ∷ r.1)
unfolding values
unchain-Unchained_step host port e es (none, rest) away (empty, same) =
    (rw away empty, ap (λ r. e ∷ r) same)
unchain-Unchained_step host port e es (some x, rest) away less = ap suc less

pub unchain-Unchained :
    (host : List ℕ) (port : ℕ) (es : List Endpoint) → Unchained host port es (unchain host port es)
unfolding unchain values
unchain-Unchained host port [] = (refl, refl)
unchain-Unchained host port (e ∷ es) = elim (Bool-cases (is_at host port e)) [
  | inl here ↦ rw here refl
  | inr away ↦ rw away (
      unchain-Unchained_step host port e es (unchain host port es) away
        (unchain-Unchained host port es))
]

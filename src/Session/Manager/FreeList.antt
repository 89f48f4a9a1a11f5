-- ===== src/Session/Manager/FreeList.antt =====
-- The free list of the slot table (src/session.c): the slots that it runs through, and what a write
-- to a slot or a longer table does to it.
use libevlite.Base.{
  ℕ, zero, suc, ◌+◌, ◌<◌, ◌≡◌, ◌≢◌, refl, sym, ap, ◌∙◌, List, [], ◌∷◌, ◌++◌, length, get_or, set,
  arith, true, false, length-append, length-set, get_or-set_ne, append_assoc, subst,
}
use libevlite.Session.Sid.{invalid_slot_index}
use libevlite.Session.Manager.Defs.{next_free, Slot, next_of, no_slot, link_slots}

-- From `h` on, the list of free slots runs through exactly `fl`, and ends.
abbrev pub Chain : List Slot → ℕ → List ℕ → Type 0
Chain t h [] = h ≡ invalid_slot_index
Chain t h (s ∷ fl) =
    (h ≡ s)
    × (s < length t)
    × ((get_or t s no_slot).is_active ≡ false)
    × Chain t (next_of (get_or t s no_slot).link) fl

abbrev pub Avoids : ℕ → List ℕ → Type 0
Avoids i [] = Unit {0}
Avoids i (s ∷ fl) = (i ≢ s) × Avoids i fl

abbrev pub Distinct : List ℕ → Type 0
Distinct [] = Unit {0}
Distinct (s ∷ fl) = Avoids s fl × Distinct fl

-- A write to a slot that is not in the list.
pub Chain-set :
    (t : List Slot) (i h : ℕ) (v : Slot) (fl : List ℕ)
    → Avoids i fl
    → Chain t h fl
    → Chain (set t i v) h fl
Chain-set t i h v [] away c = c
Chain-set t i h v (s ∷ fl) (ne, away) (e, lt, idle, rest) =
    let same = get_or-set_ne t i s v no_slot ne in
    (
      e,
      omega (arith, length-set t i v),
      rw same idle,
      rw same (Chain-set t i (next_of (get_or t s no_slot).link) v fl away rest),
    )

-- An active slot is not in the list.
pub active-Avoids :
    (t : List Slot) (i h : ℕ) (fl : List ℕ)
    → Chain t h fl
    → (get_or t i no_slot).is_active ≡ true
    → Avoids i fl
active-Avoids t i h [] c on = tt
active-Avoids t i h (s ∷ fl) (e, lt, idle, rest) on = (
  λ same. true-ne-false (sym on ∙ ap (λ k. (get_or t k no_slot).is_active) same ∙ idle),
  active-Avoids t i (next_of (get_or t s no_slot).link) fl rest on,
)
  where
    true-ne-false : true ≢ false
    true-ne-false x = cc

-- The slots that link_slots links.
abbrev pub range : ℕ → ℕ → List ℕ
range i zero = []
range i (suc n) = i ∷ range (i + 1) n

pub length-range : (i n : ℕ) → length (range i n) ≡ n
length-range i zero = refl
length-range i (suc n) = ap suc (length-range (i + 1) n)

pub length-link_slots : (i n : ℕ) → length (link_slots i n) ≡ n
unfolding link_slots
length-link_slots i zero = refl
length-link_slots i (suc zero) = refl
length-link_slots i (suc (suc n)) = ap suc (length-link_slots (i + 1) (suc n))

range-Avoids : (i j n : ℕ) → i < j → Avoids i (range j n)
range-Avoids i j zero lt = tt
range-Avoids i j (suc n) lt = (omega arith, range-Avoids i (j + 1) n (omega arith))

pub range-Distinct : (i n : ℕ) → Distinct (range i n)
range-Distinct i zero = tt
range-Distinct i (suc n) = (range-Avoids i (i + 1) n (omega arith), range-Distinct (i + 1) n)

get_or-middle :
    {A : Type 0} (xs ys : List A) (x d : A) (i : ℕ) → length xs ≡ i → get_or (xs ++ x ∷ ys) i d ≡ x
get_or-middle [] ys x d zero e = refl
get_or-middle [] ys x d (suc i) e = absurd (omega arith)
get_or-middle (y ∷ xs) ys x d zero e = absurd (omega arith)
get_or-middle (y ∷ xs) ys x d (suc i) e = get_or-middle xs ys x d i (omega arith)

-- New slots behind a table are a free list of their own.
pub link_slots-Chain :
    (t : List Slot) (i n : ℕ) → length t ≡ i → Chain (t ++ link_slots i (suc n)) i (range i (suc n))
unfolding link_slots
link_slots-Chain t i zero e =
    let here = get_or-middle t [] no_slot no_slot i e in
    (refl, omega (arith, length-append t (no_slot ∷ [])), rw here refl, rw here refl)
link_slots-Chain t i (suc n) e =
    let slot : Slot = record { link = next_free (i + 1); version = 0; is_active = false } in
    let more = link_slots (i + 1) (suc n) in
    let here = get_or-middle t more slot no_slot i e in
    let rest : Chain ((t ++ slot ∷ []) ++ more) (i + 1) (range (i + 1) (suc n)) =
      link_slots-Chain (t ++ slot ∷ []) (i + 1) n (omega (arith, length-append t (slot ∷ []))) in
    (
      refl,
      omega (arith, length-append t (slot ∷ more)),
      rw here refl,
      rw here (
          subst (λ u. Chain u (i + 1) (range (i + 1) (suc n))) (append_assoc t (slot ∷ []) more)
            rest),
    )

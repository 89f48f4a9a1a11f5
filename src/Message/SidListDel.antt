-- ===== src/Message/SidListDel.antt =====
-- Reading from the list of ids (src/sidlist.c), and taking out of it.
use libevlite.Base.{
  occurs, ℕ, zero, suc, ◌+◌, ◌-◌, ◌<◌, ◌≡◌, ◌⊎◌, inl, inr, refl, sym, ap, ◌∙◌, true, false, some,
  List, [], ◌∷◌, ◌==◌, if◌then◌else◌, length, get_or, get_elem?, set, take, arith, length-take,
  length-set, Bool-cases, lt→ltb, get_elem?-eq-get_or, ℕ_discrete,
}
use libevlite.Base.Int.{ℤ, pos, negsuc}
use libevlite.Message.SidList.{SidList, ids, get, del, position}
use libevlite.Message.SidListLaws.{IsValid}

occurs-set :
    (x : ℕ) (t : List ℕ) (i v : ℕ)
    → i < length t
    → occurs x (set t i v) + (if get_or t i 0 == x then 1 else 0)
      ≡ occurs x t + (if v == x then 1 else 0)
occurs-set x [] i v h = absurd (omega arith)
occurs-set x (y ∷ t) zero v h = omega arith
occurs-set x (y ∷ t) (suc i) v h = omega (arith, occurs-set x t i v (omega arith))

occurs-take-suc :
    (x : ℕ) (t : List ℕ) (n : ℕ)
    → n < length t
    → occurs x (take (suc n) t) ≡ occurs x (take n t) + (if get_or t n 0 == x then 1 else 0)
occurs-take-suc x [] n h = absurd (omega arith)
occurs-take-suc x (y ∷ t) zero h = omega arith
occurs-take-suc x (y ∷ t) (suc n) h = omega (arith, occurs-take-suc x t n (omega arith))

get_or-take : (t : List ℕ) (n i : ℕ) → i < n → get_or (take n t) i 0 ≡ get_or t i 0
get_or-take t zero i h = absurd (omega arith)
get_or-take [] (suc n) i h = refl
get_or-take (y ∷ t) (suc n) zero h = refl
get_or-take (y ∷ t) (suc n) (suc i) h = get_or-take t n i (omega arith)

take-set : (t : List ℕ) (n i v : ℕ) → take n (set t i v) ≡ set (take n t) i v
take-set t zero i v = refl
take-set [] (suc n) i v = refl
take-set (y ∷ t) (suc n) zero v = refl
take-set (y ∷ t) (suc n) (suc i) v = ap (λ r. y ∷ r) (take-set t n i v)

-- The move of the last id, and one id less.
occurs_moved :
    (x : ℕ) (t : List ℕ) (n i : ℕ)
    → i < suc n
    → n < length t
    → occurs x (take n (if i == n then t else set t i (get_or t n 0)))
        + (if get_or t i 0 == x then 1 else 0)
      ≡ occurs x (take (suc n) t)
occurs_moved x t n i h lt = elim (ℕ_discrete i n) [
  | yes same ↦
      let a : (i == n) ≡ true = ground arith in rw (a, same) (sym (occurs-take-suc x t n lt))
  | no ne ↦
      let a : (i == n) ≡ false = ground arith in
      let b = occurs-set x (take n t) i (get_or t n 0) (omega (arith, length-take n t)) in
      let here =
        ap {B = ℕ} (λ (k : ℕ). if k == x then 1 else 0) (get_or-take t n i (omega arith)) in
      rw (a, take-set t n i (get_or t n 0)) (omega (arith, b, here, occurs-take-suc x t n lt))
]

-- The positions that sidlist_del() and sidlist_get() take: -1 is the last id.
abbrev pub IsAt : SidList → ℤ → ℕ → Type 0
IsAt l index i = (index ≡ pos i) ⊎ ((index ≡ negsuc 0) × (suc i ≡ l.count))

position-IsAt :
    (l : SidList) (index : ℤ) (i : ℕ)
    → IsValid l
    → i < l.count
    → IsAt l index i
    → position l index ≡ i
position-IsAt l index i v h (inl e) = rw e (omega (arith, v.fits, v.word))
position-IsAt l index i v h (inr (e, last)) = rw e (omega (arith, last, v.fits, v.word))

-- sidlist_get() of a position in a valid list, or of -1 for its last one, gives the id there.
pub get-IsAt :
    (l : SidList) (index : ℤ) (i : ℕ)
    → IsValid l
    → i < l.count
    → IsAt l index i
    → get_elem? (ids l) i ≡ some (get l index)
unfolding get
get-IsAt l index i v h place =
    let e = position-IsAt l index i v h place in
    rw (e, lt→ltb i l.count h)
      (get_elem?-eq-get_or (ids l) i 0
          (omega (arith, length-take l.count l.entries, v.stored, v.fits))
        ∙ ap some (get_or-take l.entries l.count i h))

-- The list without its id at `i`.
abbrev without : SidList → ℕ → SidList
without l i = record l {
  count = l.count - 1;
  entries =
      if i == l.count - 1 then l.entries else set l.entries i (get_or l.entries (l.count - 1) 0);
}

del-without :
    (l : SidList) (index : ℤ) (i : ℕ)
    → IsValid l
    → i < l.count
    → IsAt l index i
    → del l index ≡ (get_or l.entries i 0, without l i)
unfolding del
del-without l index i v h place = rw (position-IsAt l index i v h place, lt→ltb i l.count h) refl

without-IsValid : (l : SidList) (i : ℕ) → IsValid l → IsValid (without l i)
without-IsValid l i v = record {
  stored = same_size (Bool-cases (i == l.count - 1));
  fits = omega (arith, v.fits);
  word = v.word;
  positive = v.positive;
}
  where
    same_size :
        ((i == l.count - 1) ≡ true) ⊎ ((i == l.count - 1) ≡ false)
        → length (without l i).entries ≡ l.size
    same_size (inl e) = rw e (v.stored)
    same_size (inr e) = rw e (length-set l.entries i (get_or l.entries (l.count - 1) 0) ∙ v.stored)

-- sidlist_del() of a position in a valid list, or of -1 for its last one, returns the id there and leaves
-- every id as often in the list as before, that one once less.
pub del_lem :
    (l : SidList) (index : ℤ) (i x : ℕ)
    → IsValid l
    → i < l.count
    → IsAt l index i
    → let (id, l') = del l index in
      (get_elem? (ids l) i ≡ some id)
      × (occurs x (ids l') + (if id == x then 1 else 0) ≡ occurs x (ids l))
      × (l'.count + 1 ≡ l.count)
      × IsValid l'
del_lem l index i x v h place =
    let whole : suc (l.count - 1) ≡ l.count = omega arith in
    let moved =
      occurs_moved x l.entries (l.count - 1) i (omega arith) (omega (arith, v.stored, v.fits)) in
    let here =
      get_elem?-eq-get_or (ids l) i 0
        (omega (arith, length-take l.count l.entries, v.stored, v.fits))
      ∙ ap some (get_or-take l.entries l.count i h) in
    rw (del-without l index i v h place) (
      here,
      moved ∙ ap (λ n. occurs x (take n l.entries)) whole,
      omega arith,
      without-IsValid l i v,
    )

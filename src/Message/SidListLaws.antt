-- ===== src/Message/SidListLaws.antt =====
-- The list of ids (src/sidlist.c) against a list.
use libevlite.Base.{
  ℕ, zero, suc, ◌+◌, ◌-◌, ◌*◌, ◌%◌, ◌≤◌, ◌<◌, ◌≡◌, inl, inr, refl, sym, ap, ◌∙◌, true, some, List,
  [], ◌∷◌, ◌++◌, ltb, length, set, take, drop, replicate, arith, length-append, length-take,
  length-drop, length-replicate, length-set, Bool-cases, take_of_append, append_assoc,
  take-append_short, take_all,
}
use libevlite.Base.Int.{pos}
use libevlite.Base.Words.{u32_mod, add32}
use libevlite.Message.SidList.{SidList, ids, resize, add_last, add, add_all, adds}

pub record IsValid (l : SidList) : Type 0 where
  pub stored : length l.entries ≡ l.size
  pub fits : l.count ≤ l.size
  pub word : l.size < u32_mod
  pub positive : 0 < l.size

take-set_last :
    (xs : List ℕ) (n v : ℕ) → n < length xs → take (suc n) (set xs n v) ≡ take n xs ++ v ∷ []
take-set_last [] n v h = absurd (omega arith)
take-set_last (x ∷ xs) zero v h = refl
take-set_last (x ∷ xs) (suc n) v h = ap (λ t. x ∷ t) (take-set_last xs n v (omega arith))

add_last-ids :
    (l : SidList) (id : ℕ)
    → IsValid l
    → l.count < l.size
    → (ids (add_last id l) ≡ ids l ++ id ∷ []) × IsValid (add_last id l)
add_last-ids l id v h =
    let next : add32 l.count 1 ≡ suc l.count = omega (arith, v.word) in
    let last = take-set_last l.entries l.count id (omega (arith, v.stored)) in
    (
      rw next last,
      record {
        stored = length-set l.entries l.count id ∙ v.stored;
        fits = omega (arith, next);
        word = v.word;
        positive = v.positive;
      },
    )

-- The larger block.
resized : ℕ → ℕ → SidList → SidList
resized junk n l = record l { size = n; entries = take n l.entries ++ replicate (n - l.size) junk }

resized-ids :
    (junk n : ℕ) (l : SidList)
    → IsValid l
    → l.size ≤ n
    → n < u32_mod
    → (ids (resized junk n l) ≡ ids l) × IsValid (resized junk n l)
unfolding resized
resized-ids junk n l v le word = (
  rw (take_all n l.entries (omega (arith, v.stored))) (
      take-append_short l.count l.entries (replicate (n - l.size) junk)
        (omega (arith, v.stored, v.fits))),
  record {
    stored = omega (
      arith,
      length-append (take n l.entries) (replicate (n - l.size) junk),
      length-take n l.entries,
      length-replicate (n - l.size) junk,
      v.stored,
    );
    fits = omega (arith, v.fits);
    word = word;
    positive = omega (arith, v.positive);
  },
)

-- sidlist_add() on a valid list of fewer than 2 ^ 31 ids, when realloc() gives the memory, returns 0 and puts
-- the id behind the others.
pub add_lem :
    (junk : ℕ) (l : SidList) (id : ℕ)
    → IsValid l
    → l.count < 2147483648
    → (l' : SidList) × (add junk true l id ≡ some (pos 0, l'))
      × (ids l' ≡ ids l ++ id ∷ [])
      × IsValid l'
unfolding add resize resized
add_lem junk l id v small = elim (Bool-cases (ltb l.size (add32 l.count 1))) [
  | inl full ↦
      let (same, v') =
        resized-ids junk ((l.size * 2) % u32_mod) l v (ground (arith, v.fits, v.word))
          (ground (arith, v.fits, v.word)) in
      let (last, v'') =
        add_last-ids (resized junk ((l.size * 2) % u32_mod) l) id v'
          (ground (arith, v.fits, v.word, v.positive)) in
      (
        add_last id (resized junk ((l.size * 2) % u32_mod) l),
        rw full refl,
        last ∙ ap (λ t. t ++ id ∷ []) same,
        v'',
      )
  | inr room ↦
      let (last, v'') = add_last-ids l id v (ground (arith, v.fits, v.word)) in
      (add_last id l, rw room refl, last, v'')
]

add_all-ids :
    (l : SidList) (xs : List ℕ)
    → IsValid l
    → l.count + length xs ≤ l.size
    → (ids (add_all xs l) ≡ ids l ++ xs) × IsValid (add_all xs l)
add_all-ids l xs v h =
    let next : add32 l.count (length xs) ≡ l.count + length xs = omega (arith, v.word) in
    let rest = drop (l.count + length xs) l.entries in
    let size : length (ids l ++ xs) ≡ l.count + length xs =
      omega (arith, length-append (ids l) xs, length-take l.count l.entries, v.stored) in
    (
      rw next (
          ap (λ n. take n (ids l ++ (xs ++ rest))) (sym size)
          ∙ ap (take (length (ids l ++ xs))) (sym (append_assoc (ids l) xs rest))
          ∙ take_of_append (ids l ++ xs) rest),
      record {
        stored = omega (
          arith,
          length-append (ids l) (xs ++ rest),
          length-append xs rest,
          length-take l.count l.entries,
          length-drop (l.count + length xs) l.entries,
          v.stored,
        );
        fits = omega (arith, next);
        word = v.word;
        positive = v.positive;
      },
    )

-- sidlist_adds() on a valid list returns 0 and puts the ids behind the others, when realloc() gives the
-- memory and the ids are fewer than 2 ^ 32 together.
pub adds_lem :
    (junk : ℕ) (l : SidList) (xs : List ℕ)
    → IsValid l
    → l.count + length xs < 4294967296
    → (l' : SidList) × (adds junk true l xs ≡ some (pos 0, l'))
      × (ids l' ≡ ids l ++ xs)
      × IsValid l'
unfolding adds resize resized
adds_lem junk l xs v small =
    let total : add32 l.count (length xs) ≡ l.count + length xs = omega (arith, small) in
    elim (Bool-cases (ltb l.size (add32 l.count (length xs)))) [
      | inl full ↦
          let n = add32 l.count (length xs) in
          let (same, v') = resized-ids junk n l v (ground (arith, full)) (omega arith) in
          let (all, v'') = add_all-ids (resized junk n l) xs v' (omega (arith, total)) in
          (add_all xs (resized junk n l), rw full refl, all ∙ ap (λ t. t ++ xs) same, v'')
      | inr room ↦
          let (all, v'') = add_all-ids l xs v (ground (arith, total, room)) in
          (add_all xs l, rw room refl, all, v'')
    ]

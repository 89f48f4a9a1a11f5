-- ===== src/Message/Laws.antt =====
-- The receivers of a message and its completion (src/message.c).
use libevlite.Base.{
  ℕ, ◌+◌, ◌%◌, ◌<◌, ◌≡◌, refl, sym, ap, ap₂, ◌∙◌, Bool, true, false, Option, none, some, List, [],
  ◌∷◌, ◌++◌, ◌==◌, if◌then◌else◌, length, replicate, arith, length-take, length-replicate,
}
use libevlite.Base.Int.{pos}
use libevlite.Base.Words.{u32_mod, add32}
use libevlite.Message.SidList.{SidList, ids, create as sidlist_create}
use libevlite.Message.SidListLaws as L
use libevlite.Message.SidListLaws.{add_lem, adds_lem}
use libevlite.Message.Defs.{
  Message, with_list, list_or_new, then_add, add_receiver, then_adds, add_receivers, list_count,
  add_failure, add_success, is_complete,
}

abbrev pub list_ids : Option SidList → List ℕ
list_ids none = []
list_ids (some l) = ids l

-- The receivers, in the order in which they were added.
abbrev pub receivers : Message → List ℕ
receivers m = list_ids m.tolist

abbrev pub IsValidList : Option SidList → Type 0
IsValidList none = Unit {0}
IsValidList (some l) = L.IsValid l

-- A new list, or the one that is there.
list_or_new_lem :
    (junk : ℕ) (list : Option SidList) (size : ℕ)
    → IsValidList list
    → size < u32_mod
    → (l : SidList) × (list_or_new junk true list size ≡ some l)
      × (ids l ≡ list_ids list)
      × L.IsValid l
unfolding list_or_new sidlist_create
list_or_new_lem junk none size v h =
    let n = if size == 0 then 8 else size in
    (
      record { count = 0; size = n; entries = replicate n junk },
      refl,
      refl,
      record {
        stored = length-replicate n junk;
        fits = omega arith;
        word = ground (arith, h);
        positive = ground arith;
      },
    )
list_or_new_lem junk (some l) size v h = (l, refl, refl, v)

count-ids : (l : SidList) → L.IsValid l → length (ids l) ≡ l.count
count-ids l v = omega (arith, length-take l.count l.entries, v.stored, v.fits)

pub list_count-list_ids : (o : Option SidList) → IsValidList o → list_count o ≡ length (list_ids o)
unfolding list_count
list_count-list_ids none v = refl
list_count-list_ids (some l) v = sym (count-ids l v)

-- message_add_receiver() with memory returns 0 and puts the receiver behind the others, on a message whose list
-- is valid or NULL and has fewer than 2 ^ 31 ids, and keeps the counters.
pub add_receiver_lem :
    (junk : ℕ) (m : Message) (id : ℕ)
    → IsValidList m.tolist
    → length (receivers m) < 2147483648
    → (m' : Message) × (add_receiver junk true true m id ≡ some (pos 0, m'))
      × (receivers m' ≡ receivers m ++ id ∷ [])
      × IsValidList m'.tolist
      × (m'.nsuccess ≡ m.nsuccess)
      × (m'.nfailure ≡ m.nfailure)
unfolding add_receiver then_add with_list
add_receiver_lem junk m id v h =
    let (l, new, same, valid) = list_or_new_lem junk m.tolist 8 v (omega arith) in
    let (l', run, last, valid') =
      add_lem junk l id valid (omega (arith, count-ids l valid, ap length same, h)) in
    (
      record m { tolist = some l' },
      ap (λ a. then_add junk true true m a id) new ∙ ap (with_list m) run,
      last ∙ ap (λ r. r ++ id ∷ []) same,
      valid',
      refl,
      refl,
    )

-- message_add_receivers() with memory returns 0 and puts the receivers behind the others, on a message whose list
-- is valid or NULL, when they are fewer than 2 ^ 32 together.
pub add_receivers_lem :
    (junk : ℕ) (m : Message) (xs : List ℕ)
    → IsValidList m.tolist
    → length (receivers m) + length xs < 4294967296
    → (m' : Message) × (add_receivers junk true true m xs ≡ some (pos 0, m'))
      × (receivers m' ≡ receivers m ++ xs)
      × IsValidList m'.tolist
unfolding add_receivers then_adds with_list
add_receivers_lem junk m xs v h =
    let (l, new, same, valid) = list_or_new_lem junk m.tolist (length xs) v (omega arith) in
    let (l', run, all, valid') =
      adds_lem junk l xs valid (omega (arith, count-ids l valid, ap length same, h)) in
    (
      record m { tolist = some l' },
      ap (λ a. then_adds junk true true m a xs) new ∙ ap (with_list m) run,
      all ∙ ap (λ r. r ++ xs) same,
      valid',
    )

-- What the sends report: true is a success.
abbrev pub report : List Bool → Message → Message
report [] m = m
report (true ∷ rs) m = report rs (add_success m)
report (false ∷ rs) m = report rs (add_failure m)

report_total :
    (rs : List Bool) (m : Message)
    → (add32 (report rs m).nsuccess (report rs m).nfailure
        ≡ (m.nsuccess + m.nfailure + length rs) % u32_mod)
      × ((report rs m).tolist ≡ m.tolist)
unfolding add_success add_failure
report_total [] m = (omega arith, refl)
report_total (true ∷ rs) m =
    let (n, same) = report_total rs (add_success m) in (n ∙ omega arith, same)
report_total (false ∷ rs) m =
    let (n, same) = report_total rs (add_failure m) in (n ∙ omega arith, same)

list_count-ids :
    (list : Option SidList) → IsValidList list → list_count list ≡ length (list_ids list)
unfolding list_count
list_count-ids none v = refl
list_count-ids (some l) v = sym (count-ids l v)

-- A message is complete exactly when as many successes and failures have been reported as it has receivers, in
-- any order, if it starts with none of them, its list is valid or NULL, and both are fewer than 2 ^ 32.
pub is_complete_lem :
    (m : Message) (rs : List Bool)
    → IsValidList m.tolist
    → m.nsuccess + m.nfailure ≡ 0
    → length rs < 4294967296
    → is_complete (report rs m) ≡ (length (receivers m) == length rs)
unfolding is_complete
is_complete_lem m rs v fresh small =
    let (total, same) = report_total rs m in
    let n : (m.nsuccess + m.nfailure + length rs) % u32_mod ≡ length rs = omega arith in
    ap₂ (λ a b. a == b) (ap list_count same ∙ list_count-ids m.tolist v) (total ∙ n)

-- ===== src/Network/Everyone.antt =====
-- _broadcast2_direct() of src/network.c.
use libevlite.Base.{
  ℕ, ◌+◌, ◌≤◌, ◌<◌, ◌≡◌, refl, sym, ap, ◌∙◌, subst, true, false, Option, none, some, List, [], ◌∷◌,
  ◌==◌, if◌then◌else◌, arith, occurs, Option-cases, inl, inr, length, length-append, replicate,
  length-replicate,
}
use libevlite.Base.Int.{ℤ, pos, negsuc}
use libevlite.Base.Words.{add32}
use libevlite.Session.Manager.Defs.{Slot, session_of, foreach_slots, foreach}
use libevlite.Message.SidList.{create as sidlist_create}
use libevlite.Message.Defs.{Message, list_count, add_receiver, reserve_receivers, replace}
use libevlite.Message.Laws.{receivers, IsValidList, list_count-list_ids, add_receiver_lem}
use libevlite.Channel.Store.{update_self}
use libevlite.Channel.Defs.{Transformed, message_or}
use libevlite.Network.Defs.{
  Local, Reply, note, transform_message, broadcast2_loop, broadcast2_each, broadcast2_direct,
  finish, destroy,
}
use libevlite.Network.Account.{is_of, sends}
use libevlite.Network.Live.{live, member_self}
use libevlite.Network.Held.{held, tally, IsOnce, send_message-Tallied}
use libevlite.Network.Broadcast.{
  transform_message-Tallied, completes, Frees, stored-finish, finish-Frees,
}

-- The sessions `members`, one after the other.
unfoldable visits : (ℕ → Reply) → ℕ → List ℕ → Local × ℕ → Local × ℕ
visits replies m [] c = c
visits replies m (a ∷ members) c = visits replies m members (broadcast2_each replies m c a).1

foreach_slots-visits :
    (replies : ℕ → Reply) (m : ℕ) (slots : List Slot) (c : Local × ℕ) (count : ℕ)
    → foreach_slots slots (broadcast2_each replies m) c count
      ≡ (count + length (live slots), visits replies m (live slots) c)
unfolding foreach_slots live visits broadcast2_each
foreach_slots-visits replies m [] c count = ap (λ n. (n, c)) (omega arith)
foreach_slots-visits replies m (slot ∷ slots) (t, i) count =
    elim (Option-cases (if slot.is_active then session_of slot.link else none)) [
      | inl nothing ↦
          ap run nothing ∙ foreach_slots-visits replies m slots (t, i) count ∙ sym (ap seen nothing)
      | inr (a, some_a) ↦
          ap run some_a
          ∙ foreach_slots-visits replies m slots (broadcast2_loop (replies i) t m a, i + 1)
              (count + 1)
          ∙ ap (λ n. (n, visits replies m (live slots) (broadcast2_loop (replies i) t m a, i + 1)))
              (omega arith)
          ∙ sym (ap seen some_a)
    ]
  where
    run : Option ℕ → ℕ × (Local × ℕ)
    run o = elim o [
      | none ↦ foreach_slots slots (broadcast2_each replies m) (t, i) count
      | some a ↦
          foreach_slots slots (broadcast2_each replies m) (broadcast2_loop (replies i) t m a, i + 1)
            (count + 1)
    ]

    seen : Option ℕ → ℕ × (Local × ℕ)
    seen o =
        let members : List ℕ = elim o [ none ↦ live slots | some a ↦ a ∷ live slots ] in
        (count + length members, visits replies m members (t, i))

-- The message has as many receivers as are counted as done or wait in the queues.
record IsBalanced (t : Local) (m k : ℕ) (gone : List ℕ) : Type 0 where
  destroyed : t.destroyed ≡ gone
  list : IsValidList (t.stored m).tolist
  receivers : list_count (t.stored m).tolist ≡ k
  total : tally t m ≡ k

broadcast2_loop-IsBalanced :
    (r : Reply) (t : Local) (m a k : ℕ)
    → IsOnce t
    → 0 < occurs a (live t.manager.table)
    → is_of r.address m ≡ false
    → k < 2147483648
    → IsBalanced t m k t.destroyed
    → IsBalanced (broadcast2_loop r t m a) m (k + 1) t.destroyed
      × ((broadcast2_loop r t m a).manager ≡ t.manager)
unfolding broadcast2_loop note message_or
broadcast2_loop-IsBalanced r t m a k once there h small b =
    let v = t.stored m in
    let id = (t.sender a).id in
    let (v', run, last, valid, success, failure) =
      add_receiver_lem 0 v id b.list
        (omega (arith, list_count-list_ids v.tolist b.list, b.receivers)) in
    let t₁ = note t m (message_or v (add_receiver 0 true true v id)) in
    let here : t₁.stored m ≡ v' = update_self t.stored m _ ∙ ap (message_or v) run in
    let before : tally t₁ m ≡ k = omega (arith, ap sends here, success, failure, b.total) in
    let sent = send_message-Tallied r t₁ a m once there h (omega (arith, before)) in
    let counted : list_count v'.tolist ≡ k + 1 = omega (
      arith,
      list_count-list_ids v'.tolist valid,
      ap length last,
      length-append (receivers v) (id ∷ []),
      list_count-list_ids v.tolist b.list,
      b.receivers,
    ) in
    let list = sent.list ∙ ap (λ w. w.tolist) here in
    (
      record {
        destroyed = sent.destroyed;
        list = subst IsValidList (sym list) valid;
        receivers = ap list_count list ∙ counted;
        total = omega (arith, sent.total, before);
      },
      sent.manager,
    )

visits-IsBalanced :
    (replies : ℕ → Reply) (m : ℕ) (members : List ℕ) (t : Local) (i k : ℕ)
    → IsOnce t
    → ((a : ℕ) → 0 < occurs a members → 0 < occurs a (live t.manager.table))
    → ((j : ℕ) → is_of (replies j).address m ≡ false)
    → k + length members < 2147483648
    → IsBalanced t m k t.destroyed
    → IsBalanced (visits replies m members (t, i)).0 m (k + length members) t.destroyed
      × ((visits replies m members (t, i)).0.manager ≡ t.manager)
unfolding visits broadcast2_each
visits-IsBalanced replies m [] t i k once there h small b =
    let e : k ≡ k + 0 = omega arith in (subst (λ n. IsBalanced t m n t.destroyed) e b, refl)
visits-IsBalanced replies m (a ∷ members) t i k once there h small b =
    let (b₁, kept) =
      broadcast2_loop-IsBalanced (replies i) t m a k once
        (there a (omega (arith, member_self a members))) (h i) (omega (arith, small)) b in
    let t₁ = broadcast2_loop (replies i) t m a in
    let once₁ = subst (λ man. (x : ℕ) → occurs x (live man.table) ≤ 1) (sym kept) once in
    let there₁ : (x : ℕ) → 0 < occurs x members → 0 < occurs x (live t₁.manager.table) = λ x lt.
      subst (λ man. 0 < occurs x (live man.table)) (sym kept) (there x (omega (arith, lt))) in
    let (b₂, kept₂) =
      visits-IsBalanced replies m members t₁ (i + 1) (k + 1) once₁ there₁ h (omega (arith, small))
        (subst (IsBalanced t₁ m (k + 1)) (sym b₁.destroyed) b₁) in
    let last = (visits replies m members (t₁, i + 1)).0 in
    let e : k + 1 + length members ≡ k + length (a ∷ members) = omega arith in
    (
      subst (λ n. IsBalanced last m n t.destroyed) e
          (subst (IsBalanced last m (k + 1 + length members)) b₁.destroyed b₂),
      kept₂ ∙ kept,
    )

-- After the list of receivers has been reserved.
reserved-IsBalanced :
    (t : Local) (m : ℕ)
    → (t.stored m).tolist ≡ none
    → tally t m ≡ 0
    → t.manager.count < 2147483648
    → let v = t.stored m in
      IsBalanced
        (note t m (message_or v (reserve_receivers 0 true true v t.manager.count)))
        m
        0
        t.destroyed
unfolding note message_or reserve_receivers replace sidlist_create list_count
reserved-IsBalanced t m fresh zero_tally small =
    let v = t.stored m in
    let size = add32 t.manager.count 0 in
    let n = if size == 0 then 8 else size in
    let made : Message = record v {
      tolist = some (record { count = 0; size = n; entries = replicate n 0 });
    } in
    let here : (note t m (message_or v (reserve_receivers 0 true true v t.manager.count))).stored m
        ≡ made =
      update_self t.stored m _
      ∙ ap
          (λ o. message_or v (
            replace 0 true true v o (sidlist_create 0 true (add32 t.manager.count (list_count o)))))
          fresh in
    record {
      destroyed = refl;
      list =
          subst (λ w. IsValidList w.tolist) (sym here)
            (record {
              stored = length-replicate n 0;
              fits = omega arith;
              word = ground (arith, small);
              positive = ground arith;
            });
      receivers = ap (λ w. list_count w.tolist) here;
      total = omega (arith, ap sends here, zero_tally);
    }

-- _broadcast2_direct() of a new message without receivers, which waits in no queue, when its transformation succeeds: it visits every
-- session of the thread and returns their number, which the message then has as receivers; and it destroys this
-- message, and no other, if no send queue of the thread holds it afterwards, and else none, whatever the
-- sessions answer.
pub broadcast2_direct-safe :
    (replies : ℕ → Reply) (tr : Transformed) (t t₁ : Local) (m : ℕ)
    → IsOnce t
    → ((j : ℕ) → is_of (replies j).address m ≡ false)
    → transform_message tr t m ≡ some t₁
    → (t.stored m).tolist ≡ none
    → tally t m ≡ 0
    → t.manager.count < 2147483648
    → length (live t.manager.table) < 2147483648
    → let (rc, t') = broadcast2_direct replies tr t m in
      (rc ≡ pos (length (live t.manager.table)))
      × (list_count (t'.stored m).tolist ≡ length (live t.manager.table))
      × Frees t m t'
unfolding broadcast2_direct foreach
broadcast2_direct-safe replies tr t t₁ m once h changed fresh zero_tally few small =
    let first = transform_message-Tallied tr t m t₁ changed in
    let members = live t.manager.table in
    let v = t₁.stored m in
    let t₂ = note t₁ m (message_or v (reserve_receivers 0 true true v t₁.manager.count)) in
    let t' = (visits replies m (live t₂.manager.table) (t₂, 0)).0 in
    let same_members : live t₂.manager.table ≡ members = ap (λ man. live man.table) first.manager in
    let once₂ : IsOnce t₂ =
      subst (λ man. (x : ℕ) → occurs x (live man.table) ≤ 1) (sym first.manager) once in
    let b₂ =
      reserved-IsBalanced t₁ m (first.list ∙ fresh) (omega (arith, first.total, zero_tally))
        (subst (λ man. man.count < 2147483648) (sym first.manager) few) in
    let (b, kept) =
      visits-IsBalanced replies m (live t₂.manager.table) t₂ 0 0 once₂ (λ a lt. lt) h
        (omega (arith, ap length same_members, small)) b₂ in
    let choice : Option Local → ℤ × Local = λ o. elim o [
      | none ↦ (negsuc 0, destroy t m)
      | some t₁ ↦
          let v = t₁.stored m in
          let t₂ = note t₁ m (message_or v (reserve_receivers 0 true true v t₁.manager.count)) in
          let (count, (t₃, i)) = foreach t₂.manager (broadcast2_each replies m) (t₂, 0) in
          (pos count, finish t₃ m)
    ] in
    let ending : ℕ × (Local × ℕ) → ℤ × Local = λ r. (pos r.0, finish r.1.0 m) in
    let runs : broadcast2_direct replies tr t m ≡ (pos (length members), finish t' m) =
      ap choice changed
      ∙ ap ending (foreach_slots-visits replies m t₂.manager.table (t₂, 0) 0)
      ∙ ap (λ n. (pos n, finish t' m)) (omega (arith, ap length same_members)) in
    let e =
      completes (t'.stored m) (length (live t₂.manager.table))
        (held t'.sender m (live t'.manager.table)) (omega (arith, b.total))
        (omega (arith, b.total, ap length same_members, small)) (omega (arith, b.receivers)) in
    (
      ap (λ r. r.0) runs,
      ap (λ r. list_count (r.1.stored m).tolist) runs
          ∙ ap (λ st. list_count (st m).tolist) (stored-finish t' m)
          ∙ omega (arith, b.receivers, ap length same_members),
      subst (Frees t m) (sym (ap (λ r. r.1) runs))
          (finish-Frees t t' m (b.destroyed ∙ first.destroyed) e),
    )

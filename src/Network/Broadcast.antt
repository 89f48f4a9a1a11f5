-- ===== src/Network/Broadcast.antt =====
-- _broadcast_direct() of src/network.c.
use libevlite.Base.{
  Bool, true, List, [], ◌∷◌, ◌++◌, if◌then◌else◌, Bool-cases, inl, inr, ℕ, ◌+◌, ◌*◌, ◌≤◌, ◌<◌, ◌≡◌,
  refl, sym, ap, ap₂, ◌∙◌, subst, false, Option, none, some, ◌==◌, arith, occurs, length,
}
use libevlite.Base.Int.{ℤ, pos, negsuc}
use libevlite.Base.Words.{u32_mod, add32}
use libevlite.Message.Defs.{Message, list_count, is_complete, set_buffer}
use libevlite.Channel.Store.{update_self}
use libevlite.Channel.Defs.{Transformed, same, other, refused}
use libevlite.Network.Defs.{
  Local, Reply, note, transform_message, broadcast_loop, broadcast_direct, finish, destroy,
}
use libevlite.Network.Account.{is_of, sends}
use libevlite.Network.Live.{live}
use libevlite.Network.Rounds.{locals, locals_same, broadcast_loop-Looped}
use libevlite.Network.Held.{held, tally, Tallied, IsOnce}

some_inj : {t t' : Local} → ◌≡◌ {A = Option Local} (some t) (some t') → t ≡ t'
some_inj {t = t} e = ap (λ o. elim o [ none ↦ t | some u ↦ u ]) e

abbrev number : ℤ → ℕ
number (pos n) = n
number (negsuc n) = 0

pub transform_message-Tallied :
    (tr : Transformed) (t : Local) (m : ℕ) (t₁ : Local)
    → transform_message tr t m ≡ some t₁
    → Tallied t m 0 t₁
unfolding transform_message note set_buffer
transform_message-Tallied same t m t₁ h =
    subst (Tallied t m 0) (some_inj h)
      (record { total = omega arith; list = refl; manager = refl; destroyed = refl })
transform_message-Tallied (other bs) t m t₁ h =
    let here =
      update_self t.stored m (record (t.stored m) { length = length bs; buffer = some bs }) in
    subst (Tallied t m 0) (some_inj h) (record {
      total = omega (arith, ap sends here);
      list = ap (λ v. v.tolist) here;
      manager = refl;
      destroyed = refl;
    })
transform_message-Tallied refused t m t₁ h = absurd cc

direct_rounds :
    (index : ℕ) (replies : ℕ → Reply) (tr : Transformed) (t t₁ : Local) (m : ℕ)
    → IsOnce t
    → ((j : ℕ) → is_of (replies j).address m ≡ false)
    → transform_message tr t m ≡ some t₁
    → tally t m ≡ 0
    → let total = list_count (t.stored m).tolist in
      2 * total < u32_mod
      → (count : ℕ) × (t' : Local) × (broadcast_direct index replies tr t m
          ≡ (pos count, finish t' m))
        × (tally t' m + count ≡ total + locals index t m 0 total)
        × (tally t' m < u32_mod)
        × ((t'.stored m).tolist ≡ (t.stored m).tolist)
        × (t'.destroyed ≡ t.destroyed)
unfolding broadcast_direct
direct_rounds index replies tr t t₁ m once h changed fresh small =
    let total = list_count (t.stored m).tolist in
    let first = transform_message-Tallied tr t m t₁ changed in
    let once₁ = subst (λ man. (x : ℕ) → occurs x (live man.table) ≤ 1) (sym first.manager) once in
    let l =
      broadcast_loop-Looped index replies total 0 t₁ m 0 once₁ h
        (omega (arith, first.total, fresh, small)) in
    let choice : Option Local → ℤ × Local = λ o. elim o [
      | none ↦ (negsuc 0, destroy t m)
      | some t₂ ↦
          let (count, t₃) = broadcast_loop index replies total 0 t₂ m 0 in (pos count, finish t₃ m)
    ] in
    (
      (broadcast_loop index replies total 0 t₁ m 0).0,
      (broadcast_loop index replies total 0 t₁ m 0).1,
      ap choice changed,
      omega (
        arith,
        l.total,
        first.total,
        fresh,
        locals_same index t t₁ m 0 total first.list first.manager,
      ),
      omega (arith, l.bounded, first.total, fresh, small),
      l.list ∙ first.list,
      l.destroyed ∙ first.destroyed,
    )

-- _broadcast_direct() of a message that has not been sent yet and waits in no queue, unless its transformation
-- fails: of the receivers, each is counted as done or waits in a queue, but a receiver
-- in this thread whose session did not take the message is counted twice.
pub broadcast_direct-counts :
    (index : ℕ) (replies : ℕ → Reply) (tr : Transformed) (t t₁ : Local) (m : ℕ)
    → IsOnce t
    → ((j : ℕ) → is_of (replies j).address m ≡ false)
    → transform_message tr t m ≡ some t₁
    → tally t m ≡ 0
    → let total = list_count (t.stored m).tolist in
      2 * total < u32_mod
      → (count : ℕ) × (t' : Local) × (broadcast_direct index replies tr t m
          ≡ (pos count, finish t' m))
        × (tally t' m + count ≡ total + locals index t m 0 total)
        × (tally t' m < u32_mod)
        × ((t'.stored m).tolist ≡ (t.stored m).tolist)
broadcast_direct-counts index replies tr t t₁ m once h changed fresh small =
    let (count, t', runs, counts, bound, list, _) =
      direct_rounds index replies tr t t₁ m once h changed fresh small in
    (count, t', runs, counts, bound, list)

pub completes :
    (v : Message) (total waiting : ℕ)
    → sends v + waiting ≡ total
    → sends v < u32_mod
    → list_count v.tolist ≡ total
    → is_complete v ≡ (waiting == 0)
unfolding is_complete
completes v total waiting e small known =
    let sum : add32 v.nsuccess v.nfailure ≡ sends v = omega arith in
    ap₂ (λ a b. a == b) known sum ∙ ground arith

-- The messages that are destroyed at the end of `t'`: `m` is added to those of `t` if no queue holds it.
abbrev pub Frees : Local → ℕ → Local → Type 0
Frees t m t' =
    t'.destroyed
    ≡ (if held t'.sender m (live t'.manager.table) == 0 then t.destroyed ++ m ∷ [] else t.destroyed)

pub stored-finish : (t : Local) (m : ℕ) → (finish t m).stored ≡ t.stored
unfolding finish destroy
stored-finish t m = by (is_complete (t.stored m))
  where
    by : (c : Bool) → (if c then destroy t m else t).stored ≡ t.stored
    by true = refl
    by false = refl

pub finish-Frees :
    (t t' : Local) (m : ℕ)
    → t'.destroyed ≡ t.destroyed
    → is_complete (t'.stored m) ≡ (held t'.sender m (live t'.manager.table) == 0)
    → Frees t m (finish t' m)
unfolding finish destroy
finish-Frees t t' m kept e =
    let choice : Bool → Local = λ c. if c then destroy t' m else t' in
    let list : Bool → List ℕ = λ c. if c then t.destroyed ++ m ∷ [] else t.destroyed in
    elim (Bool-cases (is_complete (t'.stored m))) [
      | inl complete ↦
          subst (λ c. Frees t m (choice c)) (sym complete)
            (ap (λ l. l ++ m ∷ []) kept ∙ sym (ap list (sym e ∙ complete)))
      | inr waits ↦
          subst (λ c. Frees t m (choice c)) (sym waits) (kept ∙ sym (ap list (sym e ∙ waits)))
    ]

-- _broadcast_direct() of a message that has not been sent yet and waits in no queue, when its
-- transformation succeeds and every receiver in this thread takes the message: it destroys this message, and no
-- other, if no send queue of the thread holds it afterwards, and else none.
pub broadcast_direct-safe :
    (index : ℕ) (replies : ℕ → Reply) (tr : Transformed) (t t₁ : Local) (m : ℕ)
    → IsOnce t
    → ((j : ℕ) → is_of (replies j).address m ≡ false)
    → transform_message tr t m ≡ some t₁
    → tally t m ≡ 0
    → let total = list_count (t.stored m).tolist in
      2 * total < u32_mod
      → (broadcast_direct index replies tr t m).0 ≡ pos (locals index t m 0 total)
      → Frees t m (broadcast_direct index replies tr t m).1
broadcast_direct-safe index replies tr t t₁ m once h changed fresh small all =
    let total = list_count (t.stored m).tolist in
    let (count, t', runs, counts, bound, list, destroyed) =
      direct_rounds index replies tr t t₁ m once h changed fresh small in
    let took : count ≡ locals index t m 0 total = ap number (sym (ap (λ r. r.0) runs) ∙ all) in
    let e =
      completes (t'.stored m) total (held t'.sender m (live t'.manager.table))
        (omega (arith, counts, took)) (omega (arith, bound)) (ap list_count list) in
    subst (Frees t m) (sym (ap (λ r. r.1) runs)) (finish-Frees t t' m destroyed e)

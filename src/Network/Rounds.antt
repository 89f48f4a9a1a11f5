-- ===== src/Network/Rounds.antt =====
-- The rounds of the loop of _broadcast_direct() (src/network.c).
use libevlite.Base.{
  ℕ, zero, suc, ◌+◌, ◌*◌, ◌≤◌, ◌<◌, ◌≡◌, refl, sym, ap, ap₂, ◌∙◌, subst, Bool, true, false, Option,
  none, some, if◌then◌else◌, arith, occurs, Bool-cases, inl, inr,
}
use libevlite.Base.Int.{pos, negsuc}
use libevlite.Base.Words.{u32_mod}
use libevlite.Message.SidList.{get as sidlist_get}
use libevlite.Session.Sid.{sid_index}
use libevlite.Session.Manager.Defs.{get}
use libevlite.Network.Defs.{
  Local, Reply, send_message, count_failure, broadcast_to, is_at, receiver, local_session,
  broadcast_loop,
}
use libevlite.Network.Account.{is_of}
use libevlite.Network.Live.{live, get-live}
use libevlite.Network.Held.{tally, Tallied, IsOnce, send_message-Tallied, count_failure-Tallied}

-- 1 for a receiver in this thread.
abbrev pub is_here : Option ℕ → ℕ
is_here none = 0
is_here (some a) = 1

-- The receivers from the `i`th on, `n` of them, that are sessions of this thread.
unfoldable pub locals : ℕ → Local → ℕ → ℕ → ℕ → ℕ
locals index t m i zero = 0
locals index t m i (suc n) =
    is_here (local_session index t (receiver t m i)) + locals index t m (i + 1) n

abbrev one_if : Bool → ℕ
one_if b = if b then 1 else 0

broadcast_to-Tallied :
    (r : Reply) (t : Local) (m : ℕ) (a : Option ℕ)
    → IsOnce t
    → ((b : ℕ) → a ≡ some b → 0 < occurs b (live t.manager.table))
    → is_of r.address m ≡ false
    → tally t m + 2 < u32_mod
    → let (sent, t') = broadcast_to r t m a in
      (n : ℕ) × Tallied t m n t' × (n + one_if sent ≡ 1 + is_here a)
unfolding broadcast_to
broadcast_to-Tallied r t m none once there h small =
    let start : Tallied t m 0 t = record {
      total = omega arith;
      list = refl;
      manager = refl;
      destroyed = refl;
    } in
    (1, count_failure-Tallied t m 0 (negsuc 0) t start (omega (arith, small)), omega arith)
broadcast_to-Tallied r t m (some a) once there h small =
    let (rc, t') = send_message r t a m in
    let sent = (count_failure m (rc, t')).0 in
    let one = send_message-Tallied r t a m once (there a refl) h (omega (arith, small)) in
    (
      1 + (if sent then 0 else 1),
      count_failure-Tallied t m 1 rc t' one (omega (arith, small)),
      both sent,
    )
  where
    both : (b : Bool) → 1 + (if b then 0 else 1) + one_if b ≡ 2
    both true = omega arith
    both false = omega arith

receiver_same :
    (t t' : Local) (m i : ℕ)
    → (t'.stored m).tolist ≡ (t.stored m).tolist
    → receiver t' m i ≡ receiver t m i
unfolding receiver
receiver_same t t' m i e = ap (λ o. elim o [ none ↦ 0 | some l ↦ sidlist_get l (pos i) ]) e

pub locals_same :
    (index : ℕ) (t t' : Local) (m i n : ℕ)
    → (t'.stored m).tolist ≡ (t.stored m).tolist
    → t'.manager ≡ t.manager
    → locals index t' m i n ≡ locals index t m i n
unfolding locals local_session
locals_same index t t' m i zero e f = refl
locals_same index t t' m i (suc n) e f =
    ap₂ (λ x y. x + y)
      (ap₂ (λ man id. is_here (if is_at (sid_index id) index then get man id else none)) f
        (receiver_same t t' m i e))
      (locals_same index t t' m (i + 1) n e f)

local_session-live :
    (index : ℕ) (t : Local) (id a : ℕ)
    → local_session index t id ≡ some a
    → 0 < occurs a (live t.manager.table)
unfolding local_session
local_session-live index t id a h = elim (Bool-cases (is_at (sid_index id) index)) [
  | inl here ↦
      get-live t.manager id a (sym (ap (λ c. if c then get t.manager id else none) here) ∙ h)
  | inr away ↦
      let no : none ≡ some a = sym (ap (λ c. if c then get t.manager id else none) away) ∙ h in
      absurd cc
]

-- What the rounds of the loop account for.
pub record Looped (index : ℕ) (t : Local) (m i n count : ℕ) (count' : ℕ) (t' : Local) : Type 0 where
  pub total : tally t' m + count' ≡ tally t m + count + n + locals index t m i n
  pub bounded : tally t' m ≤ tally t m + 2 * n
  pub list : (t'.stored m).tolist ≡ (t.stored m).tolist
  pub manager : t'.manager ≡ t.manager
  pub destroyed : t'.destroyed ≡ t.destroyed

module _ (index : ℕ) (replies : ℕ → Reply) where
  pub broadcast_loop-Looped :
      (n i : ℕ) (t : Local) (m count : ℕ)
      → IsOnce t
      → ((j : ℕ) → is_of (replies j).address m ≡ false)
      → tally t m + 2 * n < u32_mod
      → let (count', t') = broadcast_loop index replies n i t m count in
        Looped index t m i n count count' t'
  unfolding broadcast_loop locals
  broadcast_loop-Looped zero i t m count once h small = record {
    total = omega arith;
    bounded = omega arith;
    list = refl;
    manager = refl;
    destroyed = refl;
  }
  broadcast_loop-Looped (suc n) i t m count once h small =
      let a = local_session index t (receiver t m i) in
      let (sent, t₁) = broadcast_to (replies i) t m a in
      let (k, one, e) =
        broadcast_to-Tallied (replies i) t m a once
          (λ b f. local_session-live index t (receiver t m i) b f) (h i) (omega (arith, small)) in
      let once₁ = subst (λ man. (x : ℕ) → occurs x (live man.table) ≤ 1) (sym one.manager) once in
      let counted = if sent then count + 1 else count in
      let plus : counted ≡ count + one_if sent = by sent in
      let here = at_most a in
      let rest =
        broadcast_loop-Looped n (i + 1) t₁ m counted once₁ h
          (omega (arith, one.total, e, here, small)) in
      let again = locals_same index t t₁ m (i + 1) n one.list one.manager in
      record {
        total = omega (arith, rest.total, one.total, e, plus, again);
        bounded = omega (arith, rest.bounded, one.total, e, here);
        list = rest.list ∙ one.list;
        manager = rest.manager ∙ one.manager;
        destroyed = rest.destroyed ∙ one.destroyed;
      }
    where
      by : (b : Bool) → (if b then count + 1 else count) ≡ count + one_if b
      by true = refl
      by false = omega arith

      at_most : (o : Option ℕ) → is_here o ≤ 1
      at_most none = omega arith
      at_most (some b) = omega arith

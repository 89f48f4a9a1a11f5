-- ===== src/Network/Held.antt =====
-- A message in the send queues of the sessions of one I/O thread (src/network.c).
use libevlite.Base.{
  ℕ, ◌+◌, ◌≤◌, ◌<◌, ◌≡◌, refl, sym, ap, ap₂, ◌∙◌, false, List, [], ◌∷◌, if◌then◌else◌, arith,
  occurs, ℕ_discrete, assign, assign_self, assign_ne,
}
use libevlite.Base.Int.{ℤ, pos, negsuc}
use libevlite.Base.Words.{u32_mod}
use libevlite.Message.Defs.{add_failure}
use libevlite.Channel.Store.{update_self}
use libevlite.Channel.Defs.{Sender, is_negative, session_sendmessage}
use libevlite.Network.Live.{live, member_self, member_other}
use libevlite.Network.Defs.{Local, load, Reply, send_message, note, count_failure}
use libevlite.Network.Account.{is_of, sends, session_sendmessage-Accounted}

-- How often the send queues of `members` hold the message.
unfoldable pub held : (ℕ → Sender) → ℕ → List ℕ → ℕ
held sender m [] = 0
held sender m (a ∷ members) = occurs m (sender a).sendqueue + held sender m members

-- The finished sends and those that wait.
abbrev pub tally : Local → ℕ → ℕ
tally t m = sends (t.stored m) + held t.sender m (live t.manager.table)

held-assign_away :
    (f : ℕ → Sender) (a : ℕ) (v : Sender) (m : ℕ) (members : List ℕ)
    → occurs a members ≡ 0
    → held (assign f a v) m members ≡ held f m members
unfolding held
held-assign_away f a v m [] h = refl
held-assign_away f a v m (b ∷ members) h = elim (ℕ_discrete a b) [
  | yes e ↦ absurd (omega (arith, h, member_self b members, ap (λ x. occurs x (b ∷ members)) e))
  | no ne ↦
      ap₂ (λ s n. occurs m s.sendqueue + n) (assign_ne f a b v ne)
        (held-assign_away f a v m members (omega (arith, h)))
]

held-assign :
    (f : ℕ → Sender) (a : ℕ) (v : Sender) (m : ℕ) (members : List ℕ)
    → occurs a members ≡ 1
    → held (assign f a v) m members + occurs m (f a).sendqueue
      ≡ held f m members + occurs m v.sendqueue
unfolding held
held-assign f a v m [] h = absurd (omega (arith, h))
held-assign f a v m (b ∷ members) h = elim (ℕ_discrete a b) [
  | yes e ↦
      let rest = held-assign_away f a v m members (
        omega (
          arith,
          h,
          member_self b members,
          ap (λ x. occurs x (b ∷ members)) e,
          ap (λ x. occurs x members) e,
        )) in
      let here = ap (λ s. occurs m s.sendqueue) (ap (assign f a v) (sym e) ∙ assign_self f a v) in
      omega (arith, rest, here, ap (λ x. occurs m (f x).sendqueue) e)
  | no ne ↦
      let rest =
        held-assign f a v m members
          (omega (arith, h, member_other b a members (λ e. ne (sym e)))) in
      omega (arith, rest, ap (λ s. occurs m s.sendqueue) (assign_ne f a b v ne))
]

held-at :
    (f : ℕ → Sender) (a m : ℕ) (members : List ℕ)
    → 0 < occurs a members
    → occurs m (f a).sendqueue ≤ held f m members
unfolding held
held-at f a m [] h = absurd (omega (arith, h))
held-at f a m (b ∷ members) h = elim (ℕ_discrete b a) [
  | yes e ↦ omega (arith, ap (λ x. occurs m (f x).sendqueue) e)
  | no ne ↦ omega (arith, held-at f a m members (omega (arith, h, member_other b a members ne)))
]

-- `n` more are accounted for.
pub record Tallied (t : Local) (m n : ℕ) (t' : Local) : Type 0 where
  pub total : tally t' m ≡ tally t m + n
  pub list : (t'.stored m).tolist ≡ (t.stored m).tolist
  pub manager : t'.manager ≡ t.manager
  pub destroyed : t'.destroyed ≡ t.destroyed

pub Tallied-then :
    (t t' t'' : Local) (m n n' : ℕ)
    → Tallied t m n t'
    → Tallied t' m n' t''
    → Tallied t m (n + n') t''
Tallied-then t t' t'' m n n' a b = record {
  total = omega (arith, a.total, b.total);
  list = b.list ∙ a.list;
  manager = b.manager ∙ a.manager;
  destroyed = b.destroyed ∙ a.destroyed;
}

-- Every session is in one active slot.
abbrev pub IsOnce : Local → Type 0
IsOnce t = (a : ℕ) → occurs a (live t.manager.table) ≤ 1

pub send_message-Tallied :
    (r : Reply) (t : Local) (a m : ℕ)
    → IsOnce t
    → 0 < occurs a (live t.manager.table)
    → is_of r.address m ≡ false
    → tally t m + 1 < u32_mod
    → Tallied t m 1 (send_message r t a m).1
unfolding send_message
send_message-Tallied r t a m once there h small =
    let members = live t.manager.table in
    let there_at = held-at t.sender a m members there in
    let s = (session_sendmessage r.transformed r.answer r.address r.pushed (load t a) m).1 in
    let acc =
      session_sendmessage-Accounted r.transformed r.answer r.address r.pushed (load t a) m h
        (omega (arith, there_at, small)) in
    record {
      total =
          omega
            (arith, acc.total, held-assign t.sender a s m members (omega (arith, there, once a)));
      list = acc.list;
      manager = refl;
      destroyed = acc.destroyed;
    }

pub count_failure-Tallied :
    (t : Local) (m n : ℕ) (rc : ℤ) (t' : Local)
    → Tallied t m n t'
    → tally t m + n + 1 < u32_mod
    → let (sent, t'') = count_failure m (rc, t') in Tallied t m (n + (if sent then 0 else 1)) t''
unfolding count_failure is_negative note add_failure
count_failure-Tallied t m n (pos rc) t' a small = record {
  total = omega (arith, a.total);
  list = a.list;
  manager = a.manager;
  destroyed = a.destroyed;
}
count_failure-Tallied t m n (negsuc rc) t' a small =
    let here = update_self t'.stored m (add_failure (t'.stored m)) in
    record {
      total = omega (arith, a.total, ap sends here);
      list = ap (λ v. v.tolist) here ∙ a.list;
      manager = a.manager;
      destroyed = a.destroyed;
    }

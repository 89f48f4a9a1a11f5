-- ===== src/Network/Account.antt =====
-- How session_sendmessage() (src/session.c) accounts for a message in its counters and in the send queue.
use libevlite.Base.{
  ℕ, ◌+◌, ◌<◌, ◌≡◌, refl, ap, ◌∙◌, Bool, true, false, not, ◌&&◌, Option, none, some, List, [], ◌∷◌,
  ltb, length, drop, ◌==◌, if◌then◌else◌, arith, occurs, occurs-append, Bool-cases, inl, inr,
}
use libevlite.Base.Int.{ℤ, pos, negsuc}
use libevlite.Base.Words.{u32_mod}
use libevlite.Message.Defs.{Message, add_success, add_failure, message_create}
use libevlite.Channel.Store.{update_self}
use libevlite.Channel.Defs.{
  Store, update, Sender, Answer, Transformed, same, other, refused, is_negative, note_failure,
  note_success, push_message, send_direct, queue_message, fill, send_buffer, session_sendmessage,
  is_empty,
}

-- Whether `address` is that of the message `m`.
abbrev pub is_of : Option ℕ → ℕ → Bool
is_of none m = false
is_of (some a) m = a == m

abbrev pub sends : Message → ℕ
sends v = v.nsuccess + v.nfailure

-- The message keeps its receivers, and `n` more of them are counted as done or wait in the queue.
pub record Accounted (s : Sender) (m n : ℕ) (s' : Sender) : Type 0 where
  pub total :
      sends (s'.stored m) + occurs m s'.sendqueue ≡ sends (s.stored m) + occurs m s.sendqueue + n
  pub list : (s'.stored m).tolist ≡ (s.stored m).tolist
  pub destroyed : s'.destroyed ≡ s.destroyed

nothing-Accounted : (s : Sender) (m : ℕ) → Accounted s m 0 s
nothing-Accounted s m = record { total = omega arith; list = refl; destroyed = refl }

update_away :
    (stored : Store) (a : ℕ) (v : Message) (m : ℕ)
    → (a == m) ≡ false
    → update stored a v m ≡ stored m
unfolding update
update_away stored a v m h = ap (λ c. if c then v else stored m) h

send_direct-Accounted :
    (a : Answer) (s : Sender) (bs : List ℕ) (m : ℕ) → Accounted s m 0 (send_direct a s bs).1
unfolding send_direct
send_direct-Accounted a s bs m = elim (Bool-cases (not s.writing && is_empty s.sendqueue)) [
  | inl idle ↦ rw idle (record { total = omega arith; list = refl; destroyed = refl })
  | inr busy ↦ rw busy (nothing-Accounted s m)
]

queue_message-Accounted :
    (pushed : Bool) (address : Option ℕ) (created : Option Message) (n : ℕ) (s : Sender)
    (bs : List ℕ) (m : ℕ)
    → is_of address m ≡ false
    → Accounted s m 0 (queue_message pushed address created (n, s) bs).1
unfolding queue_message
queue_message-Accounted pushed none created n s bs m h = nothing-Accounted s m
queue_message-Accounted pushed (some a) none n s bs m h = nothing-Accounted s m
queue_message-Accounted true (some a) (some v) n s bs m h =
    let away = update_away s.stored a (fill v (drop n bs) s.id) m h in
    let one : occurs m (a ∷ []) ≡ 0 = rw h refl in
    record {
      total = omega (arith, ap sends away, occurs-append m s.sendqueue (a ∷ []), one);
      list = ap (λ w. w.tolist) away;
      destroyed = refl;
    }
queue_message-Accounted false (some a) (some v) n s bs m h =
    let away = update_away s.stored a (fill v (drop n bs) s.id) m h in
    record {
      total = omega (arith, ap sends away);
      list = ap (λ w. w.tolist) away;
      destroyed = refl;
    }

-- Two steps.
then-Accounted :
    (s s' s'' : Sender) (m n n' : ℕ)
    → Accounted s m n s'
    → Accounted s' m n' s''
    → Accounted s m (n + n') s''
then-Accounted s s' s'' m n n' a b = record {
  total = omega (arith, a.total, b.total);
  list = b.list ∙ a.list;
  destroyed = b.destroyed ∙ a.destroyed;
}

if_Accounted :
    (b : Bool) (r r' : ℤ × Sender) (s : Sender) (m n : ℕ)
    → Accounted s m n r.1
    → Accounted s m n r'.1
    → Accounted s m n (if b then r else r').1
if_Accounted true r r' s m n a a' = a
if_Accounted false r r' s m n a a' = a'

send_buffer-Accounted :
    (pushed : Bool) (a : Answer) (address : Option ℕ) (s : Sender) (bs : List ℕ) (m : ℕ)
    → is_of address m ≡ false
    → Accounted s m 0 (send_buffer pushed a address s bs).1
unfolding send_buffer
send_buffer-Accounted pushed a address s bs m h =
    let n = (send_direct a s bs).0 in
    let sent = (send_direct a s bs).1 in
    let first = send_direct-Accounted a s bs m in
    if_Accounted s.exiting (negsuc 0, s)
      (if ltb n (length bs)
        then queue_message pushed address (message_create true) (n, sent) bs
        else (pos n, sent))
      s m 0 (nothing-Accounted s m)
      (if_Accounted (ltb n (length bs))
        (queue_message pushed address (message_create true) (n, sent) bs) (pos n, sent) s m 0
        (then-Accounted s sent (queue_message pushed address (message_create true) (n, sent) bs).1 m
          0 0 first (queue_message-Accounted pushed address (message_create true) n sent bs m h))
        first)

-- One more failure, one more success.
failure_counts :
    (s : Sender) (m : ℕ)
    → sends (s.stored m) + 1 < u32_mod
    → Accounted s m 1 (record s { stored = update s.stored m (add_failure (s.stored m)) })
unfolding add_failure
failure_counts s m small =
    let here = update_self s.stored m (add_failure (s.stored m)) in
    record {
      total = omega (arith, ap sends here);
      list = ap (λ w. w.tolist) here;
      destroyed = refl;
    }

success_counts :
    (s : Sender) (m : ℕ)
    → sends (s.stored m) + 1 < u32_mod
    → Accounted s m 1 (record s { stored = update s.stored m (add_success (s.stored m)) })
unfolding add_success
success_counts s m small =
    let here = update_self s.stored m (add_success (s.stored m)) in
    record {
      total = omega (arith, ap sends here);
      list = ap (λ w. w.tolist) here;
      destroyed = refl;
    }

noted_failure :
    (s s' : Sender) (m : ℕ) (rc n : ℕ)
    → sends (s.stored m) + occurs m s.sendqueue + 1 < u32_mod
    → Accounted s m 0 s'
    → Accounted s m 1 (note_failure m (negsuc rc, s')).1
unfolding note_failure is_negative
noted_failure s s' m rc n small a =
    then-Accounted s s' _ m 0 1 a (failure_counts s' m (omega (arith, a.total, small)))

noted :
    (s : Sender) (m : ℕ) (r : ℤ × Sender)
    → sends (s.stored m) + occurs m s.sendqueue + 1 < u32_mod
    → Accounted s m 0 r.1
    → Accounted s m 1 (note_failure m (note_success m r)).1
unfolding note_failure note_success is_negative
noted s m (pos rc, s') small a =
    then-Accounted s s' _ m 0 1 a (success_counts s' m (omega (arith, a.total, small)))
noted s m (negsuc rc, s') small a =
    then-Accounted s s' _ m 0 1 a (failure_counts s' m (omega (arith, a.total, small)))

pushed_message :
    (pushed : Bool) (s : Sender) (m : ℕ)
    → sends (s.stored m) + occurs m s.sendqueue + 1 < u32_mod
    → Accounted s m 1 (note_failure m (push_message pushed s m)).1
unfolding note_failure push_message is_negative
pushed_message true s m small =
    let self : (m == m) ≡ true = ground arith in
    let one : occurs m (m ∷ []) ≡ 1 = rw self refl in
    record {
      total = omega (arith, occurs-append m s.sendqueue (m ∷ []), one);
      list = refl;
      destroyed = refl;
    }
pushed_message false s m small = failure_counts s m (omega (arith, small))

-- session_sendmessage() of a message to one session accounts for it exactly once, whatever its answer is:
-- the successes, the failures and the places of the message in the send queue are one more together; and
-- its list of receivers stays. The counters do not wrap, and no new message is put at its address.
pub session_sendmessage-Accounted :
    (tr : Transformed) (a : Answer) (address : Option ℕ) (pushed : Bool) (s : Sender) (m : ℕ)
    → is_of address m ≡ false
    → sends (s.stored m) + occurs m s.sendqueue + 1 < u32_mod
    → Accounted s m 1 (session_sendmessage tr a address pushed s m).1
unfolding session_sendmessage
session_sendmessage-Accounted same a address pushed s m h small = pushed_message pushed s m small
session_sendmessage-Accounted (other bs) a address pushed s m h small =
    noted s m (send_buffer pushed a address s bs) small
      (send_buffer-Accounted pushed a address s bs m h)
session_sendmessage-Accounted refused a address pushed s m h small =
    noted_failure s s m 0 0 small (nothing-Accounted s m)

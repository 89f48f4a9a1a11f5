-- ===== src/Channel/Send.antt =====
-- session_send() of src/session.c against the stream of bytes.
use libevlite.Base.{
  ℕ, ◌+◌, ◌^◌, ◌≤◌, ◌<◌, Bool, true, false, not, ◌&&◌, Option, none, some, List, [], ◌∷◌, ◌++◌,
  length, take, drop, ltb, if◌then◌else◌, Bool-cases, occurs, ◌≡◌, refl, sym, ap, ap₂, ◌∙◌, subst,
  arith, inl, inr, dec_lt, take_all, append_assoc, append-nil, length-append, length-drop,
  take-append-drop, drop-append_short,
}
use libevlite.Base.Int.{ℤ, pos, negsuc}
use libevlite.Message.Defs.{
  Message, with_list, list_or_new, then_add, add_receiver, add_buffer, message_create,
}
use libevlite.Message.SidList.{SidList, add}
use libevlite.Channel.Defs.{
  Store, Sender, Answer, wrote, would_block, interrupted, failed, content, update, message_or, fill,
  is_empty, channel_send, tried, send_direct, queue_message, send_buffer,
}
use libevlite.Channel.Store.{
  Whole, IsStore, queued, queued-append, at_update, update_self, update-IsStore,
}
use libevlite.Channel.Transmit.{pending, IsSending, pending_empty}

-- A call on the list of receivers leaves the bytes.
message_or-with_list :
    (m : Message) (o : Option (ℤ × SidList))
    → (content (message_or m (with_list m o)) ≡ content m)
      × ((message_or m (with_list m o)).length ≡ m.length)
unfolding message_or with_list content
message_or-with_list m none = (refl, refl)
message_or-with_list m (some (rc, l)) = (refl, refl)

message_or-then_add :
    (m : Message) (o : Option SidList) (id : ℕ)
    → (content (message_or m (then_add 0 true true m o id)) ≡ content m)
      × ((message_or m (then_add 0 true true m o id)).length ≡ m.length)
unfolding then_add message_or
message_or-then_add m none id = (refl, refl)
message_or-then_add m (some l) id = message_or-with_list m (add 0 true l id)

pub fill_lem :
    (m : Message) (bs : List ℕ) (id : ℕ) → (content (fill m bs id) ≡ bs) × Whole (fill m bs id)
unfolding fill add_receiver add_buffer content
fill_lem m bs id =
    let m₁ : Message = record m { length = length bs; buffer = some bs } in
    let (c, l) = message_or-then_add m₁ (list_or_new 0 true m₁.tolist 8) id in
    let all = take_all (length bs) bs (omega arith) in (c ∙ all, ap length (c ∙ all) ∙ sym l)

-- An update of a message that is not in the queue.
pub queued-update_fresh :
    (stored : Store) (a : ℕ) (m : Message) (q : List ℕ)
    → occurs a q ≡ 0
    → queued (update stored a m) q ≡ queued stored q
unfolding queued
queued-update_fresh stored a m [] h = refl
queued-update_fresh stored a m (b ∷ q) h =
    ap₂ (λ x y. x ++ y)
      (at_update (λ b m'. content m' ≡ content (stored b)) stored a m b (λ e. absurd (ground arith))
        refl)
      (queued-update_fresh stored a m q (omega arith))

-- The stream grows by `bs`.
abbrev pub Grown : Sender → List ℕ → Sender → Type 0
Grown s bs s' = IsSending s' × (s'.wire ++ pending s' ≡ (s.wire ++ pending s) ++ bs)

-- A state with a longer queue.
pub append-Grown :
    (s s' : Sender) (bs : List ℕ)
    → IsSending s
    → IsStore s'.stored
    → s'.wire ≡ s.wire
    → s'.msgoffset ≡ s.msgoffset
    → queued s'.stored s'.sendqueue ≡ queued s.stored s.sendqueue ++ bs
    → length (queued s.stored s.sendqueue) + length bs < 2 ^ 63
    → Grown s bs s'
append-Grown s s' bs v whole wire offset grown size =
    let longer = ap length grown ∙ length-append (queued s.stored s.sendqueue) bs in
    let covered = v.covered in
    (
      record { whole = whole; covered = omega arith; small = omega arith },
      ap₂ (λ x y. x ++ y) wire (ap₂ drop offset grown)
          ∙ ap (λ x. s.wire ++ x)
              (drop-append_short s.msgoffset (queued s.stored s.sendqueue) bs v.covered)
          ∙ sym (append_assoc s.wire (pending s) bs),
    )

-- The state after queueing the message at `a`, which holds `bs`.
unfoldable pub with_message : Sender → ℕ → Message → Sender
unfolding update
with_message s a m = record s {
  stored = update s.stored a m;
  sendqueue = s.sendqueue ++ (a ∷ []);
  writing = true;
}

pub with_message-Grown :
    (s : Sender) (a : ℕ) (m : Message) (bs : List ℕ)
    → IsSending s
    → occurs a s.sendqueue ≡ 0
    → Whole m
    → content m ≡ bs
    → length (queued s.stored s.sendqueue) + length bs < 2 ^ 63
    → Grown s bs (with_message s a m)
unfolding with_message queued
with_message-Grown s a m bs v fresh w e size =
    let after = update s.stored a m in
    let tail : content (after a) ≡ bs = ap content (update_self s.stored a m) ∙ e in
    let grown : queued after (s.sendqueue ++ (a ∷ [])) ≡ queued s.stored s.sendqueue ++ bs =
      queued-append after s.sendqueue (a ∷ [])
      ∙ ap₂ (λ x y. x ++ y) (queued-update_fresh s.stored a m s.sendqueue fresh)
          (append-nil (content (after a)) ∙ tail) in
    append-Grown s (with_message s a m) bs v (update-IsStore s.stored a m v.whole w) refl refl grown
      size

-- What goes out directly, in the state that send_direct() leaves.
abbrev pub Direct : Sender → List ℕ → ℕ → Sender → Type 0
Direct s bs n sent =
    IsSending sent
    × (n ≤ length bs)
    × (sent.wire ++ pending sent ≡ (s.wire ++ pending s) ++ take n bs)
    × (sent.stored ≡ s.stored)
    × (sent.sendqueue ≡ s.sendqueue)

-- write() takes no more than it is given.
abbrev pub TakesBytes : Answer → List ℕ → Type 0
TakesBytes a bs = (n : ℕ) → a ≡ wrote n → n ≤ length bs

tried_small : (a : Answer) (bs : List ℕ) → TakesBytes a bs → tried (channel_send a) ≤ length bs
unfolding tried channel_send
tried_small (wrote n) bs h = h n refl
tried_small would_block bs h = omega arith
tried_small interrupted bs h = omega arith
tried_small failed bs h = omega arith

right_true : (b c : Bool) → b && c ≡ true → c ≡ true
right_true true c e = e
right_true false c e = ground arith

send_direct-Direct :
    (a : Answer) (s : Sender) (bs : List ℕ)
    → IsSending s
    → TakesBytes a bs
    → let (n, sent) = send_direct a s bs in Direct s bs n sent
unfolding send_direct
send_direct-Direct a s bs v h =
    let n = tried (channel_send a) in
    elim (Bool-cases (not s.writing && is_empty s.sendqueue)) [
      | inl direct ↦
          let gone =
            (pending_empty s v (right_true (not s.writing) (is_empty s.sendqueue) direct)).1 in
          rw direct (
            record { whole = v.whole; covered = v.covered; small = v.small },
            tried_small a bs h,
            ap (λ p. (s.wire ++ take n bs) ++ p) gone
                ∙ append-nil (s.wire ++ take n bs)
                ∙ ap (λ x. x ++ take n bs)
                    (sym (append-nil s.wire) ∙ ap (λ p. s.wire ++ p) (sym gone)),
            refl,
            refl,
          )
      | inr busy ↦ rw busy (v, omega arith, sym (append-nil (s.wire ++ pending s)), refl, refl)
    ]

-- The bytes that a call has taken over: none where it answers an error.
unfoldable pub accepted : ℤ → List ℕ → List ℕ
accepted (pos n) bs = bs
accepted (negsuc n) bs = []

pub nothing_sent : (s : Sender) → IsSending s → Grown s [] s
nothing_sent s v = (v, sym (append-nil (s.wire ++ pending s)))

-- The rest of the bytes goes to the queue.
rest_queued :
    (s sent : Sender) (bs : List ℕ) (n a : ℕ) (m : Message)
    → Direct s bs n sent
    → occurs a s.sendqueue ≡ 0
    → Whole m
    → content m ≡ drop n bs
    → length (queued s.stored s.sendqueue) + length bs < 2 ^ 63
    → Grown s bs (with_message sent a m)
rest_queued s sent bs n a m (v, le, stream, es, eq) fresh w e size =
    let queue = ap₂ (λ st q. length (queued st q)) es eq in
    let (v', more) =
      with_message-Grown sent a m (drop n bs) v (ap (occurs a) eq ∙ fresh) w e
        (omega (arith, length-drop n bs)) in
    (
      v',
      more
          ∙ ap (λ x. x ++ drop n bs) stream
          ∙ append_assoc (s.wire ++ pending s) (take n bs) (drop n bs)
          ∙ ap (λ x. (s.wire ++ pending s) ++ x) (take-append-drop n bs),
    )

abbrev new_message : Message
new_message = record { nsuccess = 0; nfailure = 0; buffer = none; length = 0; tolist = none }

pub send_buffer-Grown :
    (a : Answer) (address : ℕ) (s : Sender) (bs : List ℕ)
    → IsSending s
    → TakesBytes a bs
    → occurs address s.sendqueue ≡ 0
    → length (queued s.stored s.sendqueue) + length bs < 2 ^ 63
    → let (rc, s') = send_buffer true a (some address) s bs in Grown s (accepted rc bs) s'
unfolding send_buffer queue_message accepted message_create with_message
send_buffer-Grown a address s bs v h fresh size =
    let n = (send_direct a s bs).0 in
    let sent = (send_direct a s bs).1 in
    let d = send_direct-Direct a s bs v h in
    let queue = queue_message true (some address) (message_create true) (n, sent) bs in
    let choice : Bool → Bool → ℤ × Sender =
      λ x c. if x then (negsuc 0, s) else if c then queue else (pos n, sent) in
    let Good : ℤ × Sender → Type 0 = λ r. Grown s (accepted r.0 bs) r.1 in
    elim (Bool-cases s.exiting) [
      | inl exits ↦ subst (λ x. Good (choice x (ltb n (length bs)))) (sym exits) (nothing_sent s v)
      | inr stays ↦ elim (dec_lt n (length bs)) [
        | yes short ↦
            let some_left : ltb n (length bs) ≡ true = ground arith in
            let (e, w) = fill_lem new_message (drop n bs) sent.id in
            let g =
              rest_queued s sent bs n address (fill new_message (drop n bs) sent.id) d fresh w e
                size in
            subst (λ x. Good (choice x (ltb n (length bs)))) (sym stays)
              (subst (λ c. Good (choice false c)) (sym some_left) g)
        | no all ↦
            let none_left : ltb n (length bs) ≡ false = ground arith in
            let whole : take n bs ≡ bs = take_all n bs (omega arith) in
            subst (λ x. Good (choice x (ltb n (length bs)))) (sym stays)
              (subst (λ c. Good (choice false c)) (sym none_left)
                (d.0, d.2 ∙ ap (λ x. (s.wire ++ pending s) ++ x) whole))
      ]
    ]

-- ===== src/Channel/Stream.antt =====
-- A session that sends, over any sequence of calls (src/session.c, src/channel.c).
use libevlite.Base.{
  ℕ, ◌+◌, ◌^◌, ◌<◌, true, false, Option, none, some, List, [], ◌∷◌, ◌++◌, length, occurs, ◌≡◌, refl,
  sym, ap, ◌∙◌, arith, append_assoc, append-nil, drop, subst,
}
use libevlite.Base.Int.{ℤ, pos, negsuc}
use libevlite.Message.Defs.{Message, add_success, add_failure}
use libevlite.Channel.Defs.{
  Sender, Answer, update, content, Transformed, same, other, refused, session_send,
  session_sendmessage, channel_transmit, note_failure, note_success, push_message, send_buffer,
  is_negative,
}
use libevlite.Channel.Store.{Whole, queued, queued-append, queued-update_same, update-IsStore}
use libevlite.Channel.Transmit.{pending, IsSending, TakesOffered, channel_transmit_lem}
use libevlite.Channel.Send.{
  Grown, TakesBytes, accepted, nothing_sent, send_buffer-Grown, append-Grown,
}

-- The bytes that go out for `bs` when the transformation answers so.
abbrev pub transformed : Transformed → List ℕ → List ℕ
transformed same bs = bs
transformed (other bs') bs = bs'
transformed refused bs = []

-- A call on the session, with the bytes it takes over; malloc() and QUEUE_PUSH succeed in it, but for the push
-- of session_sendmessage(), whose answer is looked at.
pub data Step (s : Sender) : List ℕ → Sender → Type 0 where
  sends :
      (t : Transformed) (a : Answer) (address : ℕ) (bs : List ℕ) {rc : ℤ} {s' : Sender}
      → TakesBytes a (transformed t bs)
      → occurs address s.sendqueue ≡ 0
      → length (queued s.stored s.sendqueue) + length (transformed t bs) < 2 ^ 63
      → session_send t true a (some address) s bs ≡ (rc, s')
      → Step s (accepted rc (transformed t bs)) s'
  sends_message :
      (t : Transformed) (a : Answer) (address m : ℕ) {rc : ℤ} {s' : Sender}
      → TakesBytes a (transformed t (content (s.stored m)))
      → occurs address s.sendqueue ≡ 0
      → length (queued s.stored s.sendqueue) + length (transformed t (content (s.stored m)))
        < 2 ^ 63
      → session_sendmessage t a (some address) true s m ≡ (rc, s')
      → Step s (accepted rc (transformed t (content (s.stored m)))) s'
  refuses_message :
      (a : Answer) (address : Option ℕ) (m : ℕ) {rc : ℤ} {s' : Sender}
      → session_sendmessage same a address false s m ≡ (rc, s')
      → Step s [] s'
  transmits :
      (iov_max : ℕ) (writev : ℕ → List (List ℕ) → Answer) (fuel : ℕ) {rc : ℤ} {s' : Sender}
      → TakesOffered writev
      → length (pending s) < fuel
      → channel_transmit iov_max writev fuel s ≡ some (rc, s')
      → Step s [] s'

pub data Steps (s : Sender) : List ℕ → Sender → Type 0 where
  start : Steps s [] s
  later :
      {bs more : List ℕ} {s' s'' : Sender}
      → Steps s bs s'
      → Step s' more s''
      → Steps s (bs ++ more) s''

-- A counter of a message changes, not its bytes.
counted-Grown :
    (s s' : Sender) (bs : List ℕ) (a : ℕ) (m : Message)
    → Grown s bs s'
    → content m ≡ content (s'.stored a)
    → Whole m
    → Grown s bs (record s' { stored = update s'.stored a m })
counted-Grown s s' bs a m (v, stream) e w =
    let q = queued-update_same s'.stored a m s'.sendqueue e in
    let len = ap length q in
    let covered = v.covered in
    let small = v.small in
    (
      record {
        whole = update-IsStore s'.stored a m v.whole w;
        covered = omega arith;
        small = omega arith;
      },
      ap (λ x. s'.wire ++ drop s'.msgoffset x) q ∙ stream,
    )

abbrev Result : Sender → List ℕ → ℤ × Sender → Type 0
Result s bs r = Grown s (accepted r.0 bs) r.1

note_failure-Result :
    (s : Sender) (bs : List ℕ) (a : ℕ) (r : ℤ × Sender)
    → Result s bs r
    → Result s bs (note_failure a r)
unfolding note_failure is_negative add_failure content
note_failure-Result s bs a (pos n, s') g = g
note_failure-Result s bs a (negsuc n, s') g =
    counted-Grown s s' _ a (add_failure (s'.stored a)) g refl (g.0.whole a)

note_success-Result :
    (s : Sender) (bs : List ℕ) (a : ℕ) (r : ℤ × Sender)
    → Result s bs r
    → Result s bs (note_success a r)
unfolding note_success is_negative add_success content
note_success-Result s bs a (negsuc n, s') g = g
note_success-Result s bs a (pos n, s') g =
    counted-Grown s s' _ a (add_success (s'.stored a)) g refl (g.0.whole a)

refused-Result : (s : Sender) (n : ℕ) → IsSending s → Result s [] (negsuc n, s)
unfolding accepted
refused-Result s n v = nothing_sent s v

push_message-Result :
    (s : Sender) (m : ℕ)
    → IsSending s
    → length (queued s.stored s.sendqueue) + length (content (s.stored m)) < 2 ^ 63
    → Result s (content (s.stored m)) (push_message true s m)
unfolding push_message queued accepted
push_message-Result s m v size =
    append-Grown s (record s { sendqueue = s.sendqueue ++ (m ∷ []); writing = true })
      (content (s.stored m)) v v.whole refl refl
      (queued-append s.stored s.sendqueue (m ∷ [])
        ∙ ap (λ x. queued s.stored s.sendqueue ++ x) (append-nil (content (s.stored m))))
      size

session_send-Result :
    (t : Transformed) (a : Answer) (address : ℕ) (s : Sender) (bs : List ℕ)
    → IsSending s
    → TakesBytes a (transformed t bs)
    → occurs address s.sendqueue ≡ 0
    → length (queued s.stored s.sendqueue) + length (transformed t bs) < 2 ^ 63
    → Result s (transformed t bs) (session_send t true a (some address) s bs)
unfolding session_send
session_send-Result same a address s bs v h fresh size =
    send_buffer-Grown a address s bs v h fresh size
session_send-Result (other bs') a address s bs v h fresh size =
    send_buffer-Grown a address s bs' v h fresh size
session_send-Result refused a address s bs v h fresh size = refused-Result s 0 v

session_sendmessage-Result :
    (t : Transformed) (a : Answer) (address : ℕ) (s : Sender) (m : ℕ)
    → IsSending s
    → TakesBytes a (transformed t (content (s.stored m)))
    → occurs address s.sendqueue ≡ 0
    → length (queued s.stored s.sendqueue) + length (transformed t (content (s.stored m))) < 2 ^ 63
    → Result s
        (transformed t (content (s.stored m)))
        (session_sendmessage t a (some address) true s m)
unfolding session_sendmessage
session_sendmessage-Result same a address s m v h fresh size =
    note_failure-Result s (content (s.stored m)) m (push_message true s m)
      (push_message-Result s m v size)
session_sendmessage-Result (other bs) a address s m v h fresh size =
    note_failure-Result s bs m (note_success m (send_buffer true a (some address) s bs)) (
      note_success-Result s bs m (send_buffer true a (some address) s bs)
        (send_buffer-Grown a address s bs v h fresh size))
session_sendmessage-Result refused a address s m v h fresh size =
    note_failure-Result s [] m (negsuc 0, s) (refused-Result s 0 v)

session_sendmessage-refused :
    (a : Answer) (address : Option ℕ) (s : Sender) (m : ℕ)
    → IsSending s
    → Grown s [] (session_sendmessage same a address false s m).1
unfolding session_sendmessage note_failure push_message is_negative add_failure content
session_sendmessage-refused a address s m v =
    counted-Grown s s [] m (add_failure (s.stored m)) (nothing_sent s v) refl (v.whole m)

abbrev last_state : Sender → Option (ℤ × Sender) → Sender
last_state s none = s
last_state s (some (rc, s')) = s'

Step-Grown : {s s' : Sender} {bs : List ℕ} → Step s bs s' → IsSending s → Grown s bs s'
Step-Grown {s = s} (sends t a address bs h fresh size e) v =
    subst (Result s (transformed t bs)) e (session_send-Result t a address s bs v h fresh size)
Step-Grown {s = s} (sends_message t a address m h fresh size e) v =
    subst (Result s (transformed t (content (s.stored m)))) e
      (session_sendmessage-Result t a address s m v h fresh size)
Step-Grown {s = s} (refuses_message a address m e) v =
    subst (λ r. Grown s [] r.1) e (session_sendmessage-refused a address s m v)
Step-Grown {s = s} (transmits iov_max writev fuel takes f e) v =
    let (rc', last, runs, tr) = channel_transmit_lem iov_max writev takes fuel s v f in
    subst (λ x. Grown s [] x) (ap (last_state s) (sym runs ∙ e))
      (tr.valid, tr.stream ∙ sym (append-nil (s.wire ++ pending s)))

-- Over any sequence of calls of session_send(), session_sendmessage() and channel_transmit() on a session, what
-- the descriptor has taken, followed by what is still to be sent, grows by exactly the bytes that the calls took
-- over, in order. The memory for a new message is there and QUEUE_PUSH has room for it
-- (where it has none _send_buffer() loses the bytes). Each call of write() and writev() takes no more than it is given, a new message is not yet
-- in the queue, and the queue stays below 2 ^ 63 bytes.
pub Steps-Grown : {s s' : Sender} {bs : List ℕ} → Steps s bs s' → IsSending s → Grown s bs s'
Steps-Grown {s = s} start v = nothing_sent s v
Steps-Grown {s = s} (later {bs = bs} {more = more} steps step) v =
    let (v', stream) = Steps-Grown steps v in
    let (v'', stream') = Step-Grown step v' in
    (v'', stream' ∙ ap (λ x. x ++ more) stream ∙ append_assoc (s.wire ++ pending s) bs more)

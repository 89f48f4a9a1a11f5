-- ===== src/Channel/Defs.antt =====
-- The part of `struct session` (src/session.h) that sends, channel_transmit() and channel_send() of
-- src/channel.c, and session_send() and session_sendmessage() of src/session.c with what they call.
-- A message is its address; the send queue is the list of its messages, oldest first.
use libevlite.Base.{
  ℕ, zero, suc, ◌-◌, Bool, true, false, not, ◌&&◌, Option, none, some, List, [], ◌∷◌, ◌++◌, length,
  take, drop, ltb, ◌==◌, if◌then◌else◌,
}
use libevlite.Base.Int.{ℤ, pos, negsuc}
use libevlite.Base.Words.{add64}
use libevlite.Message.Defs.{
  Message, add_buffer, add_receiver, add_success, add_failure, is_complete, message_create,
}

abbrev pub Store : Type 0
Store = ℕ → Message

unfoldable pub update : Store → ℕ → Message → Store
update stored a m = λ b. if a == b then m else stored b

-- message_get_buffer() and message_get_length()
unfoldable pub content : Message → List ℕ
content m = elim m.buffer [ none ↦ [] | some bs ↦ take m.length bs ]

-- The flags of `status` that matter here, each a Boolean. `wire` is what the descriptor has taken
-- so far, `destroyed` the messages that have been freed.
pub record Sender : Type 0 where
  pub id : ℕ
  pub writing : Bool
  pub exiting : Bool
  pub msgoffset : ℕ
  pub sendqueue : List ℕ
  pub stored : Store
  pub wire : List ℕ
  pub destroyed : List ℕ

-- What writev() and write() answer: a count, or -1 with EAGAIN or EWOULDBLOCK, with EINTR, or with
-- another error.
pub data Answer : Type 0 where
  wrote : ℕ → Answer
  would_block : Answer
  interrupted : Answer
  failed : Answer

abbrev pub is_empty : List ℕ → Bool
is_empty [] = true
is_empty (a ∷ q) = false

-- The vector for writev(): at most `room` pieces, from `offset` on.
unfoldable pub gather : Store → ℕ → ℕ → List ℕ → List (List ℕ)
unfolding content
gather stored room offset [] = []
gather stored zero offset (a ∷ q) = []
gather stored (suc room) offset (a ∷ q) =
    let m = stored a in
    let skipped = not (ltb offset m.length) in
    let rest =
      gather stored (if skipped then suc room else room) (if skipped then offset - m.length else 0)
        q in
    if skipped then rest else take (m.length - offset) (drop offset (content m)) ∷ rest

abbrev pub concat : List (List ℕ) → List ℕ
concat [] = []
concat (bs ∷ bss) = bs ++ concat bss

-- What the loop over the head of the queue changes.
pub record Popped : Type 0 where
  pub remaining : Store
  pub offset : ℕ
  pub queue : List ℕ
  pub gone : List ℕ

unfoldable pub pop_sent : Store → ℕ → List ℕ → Popped
unfolding update add_success is_complete
pop_sent stored offset [] = record { remaining = stored; offset = offset; queue = []; gone = [] }
pop_sent stored offset (a ∷ q) =
    let m = add_success (stored a) in
    let rest = pop_sent (update stored a m) (offset - (stored a).length) q in
    if ltb offset (stored a).length
    then record { remaining = stored; offset = offset; queue = a ∷ q; gone = [] }
    else record rest { gone = if is_complete m then a ∷ rest.gone else rest.gone }

-- After writev() of `iov` has taken `n` bytes.
unfoldable pub advance : Sender → List (List ℕ) → ℕ → Sender
unfolding pop_sent
advance s iov n =
    let p = pop_sent s.stored (add64 s.msgoffset n) s.sendqueue in
    record s {
      stored = p.remaining;
      msgoffset = p.offset;
      sendqueue = p.queue;
      wire = s.wire ++ take n (concat iov);
      destroyed = s.destroyed ++ p.gone;
    }

abbrev pub amount : Answer → ℕ
amount (wrote n) = n
amount would_block = 0
amount interrupted = 0
amount failed = 0

-- The end of one round: `rest` is what the next rounds do.
unfoldable pub after_write : Answer → ℕ → Sender → Option (ℤ × Sender) → Option (ℤ × Sender)
after_write (wrote zero) total s rest = some (pos 0, s)
after_write (wrote (suc n)) total s rest = rest
after_write would_block total s rest = some (pos total, s)
after_write interrupted total s rest = some (negsuc 0, s)
after_write failed total s rest = some (negsuc 0, s)

-- `writev t iov` is the answer of the call number `t`.
module _ (iov_max : ℕ) (writev : ℕ → List (List ℕ) → Answer) where
  -- On fuel; `none` is out of fuel.
  unfoldable pub transmit_loop : ℕ → ℕ → ℕ → Sender → Option (ℤ × Sender)
  unfolding gather advance after_write
  transmit_loop zero t total s = none
  transmit_loop (suc fuel) t total s =
      let iov = gather s.stored iov_max s.msgoffset s.sendqueue in
      let a = writev t iov in
      let rest = transmit_loop fuel (suc t) (add64 total (amount a)) (advance s iov (amount a)) in
      if is_empty s.sendqueue then some (pos total, s) else after_write a total s rest

  unfoldable pub channel_transmit : ℕ → Sender → Option (ℤ × Sender)
  unfolding transmit_loop
  channel_transmit fuel s = transmit_loop fuel 0 0 s

-- channel_send(), given the answer of write().
unfoldable pub channel_send : Answer → ℤ
channel_send (wrote n) = pos n
channel_send would_block = pos 0
channel_send interrupted = pos 0
channel_send failed = negsuc 0

-- The bytes that go out directly: an error counts as none.
unfoldable pub tried : ℤ → ℕ
tried (pos n) = n
tried (negsuc n) = 0

-- _send_only() on a session that is not exiting.
unfoldable pub send_direct : Answer → Sender → List ℕ → ℕ × Sender
unfolding channel_send tried
send_direct a s bs =
    let n = tried (channel_send a) in
    if not s.writing && is_empty s.sendqueue
    then (n, record s { wire = s.wire ++ take n bs })
    else (0, s)

unfoldable pub message_or : Message → Option (ℤ × Message) → Message
message_or m none = m
message_or m (some (rc, m')) = m'

-- message_add_buffer() and message_add_receiver() of a new message, whose allocations succeed.
unfoldable pub fill : Message → List ℕ → ℕ → Message
unfolding message_or add_buffer add_receiver
fill m bs id =
    let m₁ = message_or m (add_buffer true m bs) in message_or m₁ (add_receiver 0 true true m₁ id)

-- The message that _send_buffer() queues, at the address that malloc() answers, or NULL. `pushed` is whether
-- QUEUE_PUSH had room; its answer is not looked at.
unfoldable pub queue_message : Bool → Option ℕ → Option Message → ℕ × Sender → List ℕ → ℤ × Sender
unfolding fill update
queue_message pushed none created (n, s) bs = (negsuc 1, s)
queue_message pushed (some a) none (n, s) bs = (negsuc 1, s)
queue_message pushed (some a) (some m) (n, s) bs = (
  pos n,
  record s {
    stored = update s.stored a (fill m (drop n bs) s.id);
    sendqueue = if pushed then s.sendqueue ++ (a ∷ []) else s.sendqueue;
    writing = true;
  },
)

unfoldable pub send_buffer : Bool → Answer → Option ℕ → Sender → List ℕ → ℤ × Sender
unfolding send_direct queue_message message_create
send_buffer pushed a address s bs =
    let (n, sent) = send_direct a s bs in
    if s.exiting
    then (negsuc 0, s)
    else if ltb n (length bs)
    then queue_message pushed address (message_create true) (n, sent) bs
    else (pos n, sent)

-- What `service.transform` answers: the same buffer, with its length, another one, or NULL.
pub data Transformed : Type 0 where
  same : Transformed
  other : List ℕ → Transformed
  refused : Transformed

unfoldable pub session_send : Transformed → Bool → Answer → Option ℕ → Sender → List ℕ → ℤ × Sender
unfolding send_buffer
session_send same pushed a address s bs = send_buffer pushed a address s bs
session_send (other bs') pushed a address s bs = send_buffer pushed a address s bs'
session_send refused pushed a address s bs = (negsuc 0, s)

unfoldable pub is_negative : ℤ → Bool
is_negative (pos n) = false
is_negative (negsuc n) = true

-- The end of session_sendmessage(): a failure is counted in the message.
unfoldable pub note_failure : ℕ → ℤ × Sender → ℤ × Sender
unfolding is_negative update add_failure
note_failure a (rc, s) =
    if is_negative rc
    then (rc, record s { stored = update s.stored a (add_failure (s.stored a)) })
    else (rc, s)

unfoldable pub note_success : ℕ → ℤ × Sender → ℤ × Sender
unfolding is_negative update add_success
note_success a (rc, s) =
    if is_negative rc
    then (rc, s)
    else (rc, record s { stored = update s.stored a (add_success (s.stored a)) })

-- The message at `m`; `pushed` is whether QUEUE_PUSH had room.
unfoldable pub push_message : Bool → Sender → ℕ → ℤ × Sender
push_message pushed s m =
    if pushed
    then (pos 0, record s { sendqueue = s.sendqueue ++ (m ∷ []); writing = true })
    else (negsuc 0, s)

unfoldable pub session_sendmessage :
    Transformed → Answer → Option ℕ → Bool → Sender → ℕ → ℤ × Sender
unfolding note_failure note_success push_message send_buffer
session_sendmessage same a address pushed s m = note_failure m (push_message pushed s m)
session_sendmessage (other bs) a address pushed s m =
    note_failure m (note_success m (send_buffer pushed a address s bs))
session_sendmessage refused a address pushed s m = note_failure m (negsuc 0, s)

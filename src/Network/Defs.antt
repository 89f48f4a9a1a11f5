-- ===== src/Network/Defs.antt =====
-- The sending tasks of src/network.c in one I/O thread: _send_direct(), _broadcast_direct() and
-- _broadcast2_direct(), and what sends by them. The thread has a session manager, and its sessions share the
-- store of messages.
use libevlite.Base.{
  ℕ, zero, suc, ◌+◌, ◌-◌, ◌%◌, ◌^◌, leb, Bool, true, false, Option, none, some, List, [], ◌∷◌, ◌++◌,
  ◌==◌, if◌then◌else◌, assign, length,
}
use libevlite.Base.Int.{ℤ, pos, negsuc}
use libevlite.Message.Defs.{
  Message, add_failure, is_complete, list_count, set_buffer, add_receiver, reserve_receivers,
}
use libevlite.Message.SidList.{get as sidlist_get}
use libevlite.Session.Sid.{sid_index}
use libevlite.Session.Manager.Defs.{Manager, get, foreach}
use libevlite.Channel.Defs.{
  Store, update, Sender, Answer, Transformed, same, other, refused, session_send,
  session_sendmessage, is_negative, message_or,
}

-- `manager` is that of the thread, `sender` what is stored at the address of a session; the messages
-- are those of `stored` and `destroyed` here.
pub record Local : Type 0 where
  pub manager : Manager
  pub stored : Store
  pub destroyed : List ℕ
  pub sender : ℕ → Sender

-- The session at `a` with the messages of the thread, and back.
abbrev pub load : Local → ℕ → Sender
load t a = record (t.sender a) { stored = t.stored; destroyed = t.destroyed }

abbrev pub save : Local → ℕ → Sender → Local
save t a s = record t { stored = s.stored; destroyed = s.destroyed; sender = assign t.sender a s }

-- What the service, the descriptor, malloc() and QUEUE_PUSH answer to one session.
pub record Reply : Type 0 where
  pub transformed : Transformed
  pub answer : Answer
  pub address : Option ℕ
  pub pushed : Bool

unfoldable pub send_message : Reply → Local → ℕ → ℕ → ℤ × Local
unfolding session_sendmessage
send_message r t a m =
    let (rc, s) = session_sendmessage r.transformed r.answer r.address r.pushed (load t a) m in
    (rc, save t a s)

unfoldable pub note : Local → ℕ → Message → Local
unfolding update
note t m v = record t { stored = update t.stored m v }

-- message_destroy()
unfoldable pub destroy : Local → ℕ → Local
destroy t m = record t { destroyed = t.destroyed ++ m ∷ [] }

unfoldable pub finish : Local → ℕ → Local
unfolding is_complete destroy
finish t m = if is_complete (t.stored m) then destroy t m else t

-- The `transform` of the layer; `none` is NULL.
unfoldable pub transform_message : Transformed → Local → ℕ → Option Local
unfolding set_buffer note
transform_message same t m = some t
transform_message (other bs) t m = some (note t m (set_buffer (t.stored m) (some bs) (length bs)).1)
transform_message refused t m = none

-- `SID_INDEX( id ) == index`
unfoldable pub is_at : ℤ → ℕ → Bool
is_at (pos n) index = n == index
is_at (negsuc n) index = false

unfoldable pub receiver : Local → ℕ → ℕ → ℕ
unfolding sidlist_get
receiver t m i = elim (t.stored m).tolist [ none ↦ 0 | some l ↦ sidlist_get l (pos i) ]

-- The session of this thread with the id.
unfoldable pub local_session : ℕ → Local → ℕ → Option ℕ
unfolding is_at sid_index get
local_session index t id = if is_at (sid_index id) index then get t.manager id else none

-- The end of a round: a send that failed is counted as a failure.
unfoldable pub count_failure : ℕ → ℤ × Local → Bool × Local
unfolding is_negative note add_failure
count_failure m (rc, t) =
    if is_negative rc then (false, note t m (add_failure (t.stored m))) else (true, t)

-- One round of the loop, for the receiver at `a` if it is a session of this thread.
unfoldable pub broadcast_to : Reply → Local → ℕ → Option ℕ → Bool × Local
unfolding send_message count_failure
broadcast_to r t m none = count_failure m (negsuc 0, t)
broadcast_to r t m (some a) = count_failure m (send_message r t a m)

-- `replies i` is what round `i` is answered; `n` rounds from `i` on.
module _ (index : ℕ) (replies : ℕ → Reply) where
  unfoldable pub broadcast_loop : ℕ → ℕ → Local → ℕ → ℕ → ℕ × Local
  unfolding receiver local_session broadcast_to
  broadcast_loop zero i t m count = (count, t)
  broadcast_loop (suc n) i t m count =
      let (sent, t') = broadcast_to (replies i) t m (local_session index t (receiver t m i)) in
      broadcast_loop n (i + 1) t' m (if sent then count + 1 else count)

  unfoldable pub broadcast_direct : Transformed → Local → ℕ → ℤ × Local
  unfolding list_count transform_message broadcast_loop finish destroy
  broadcast_direct transformed t m = elim (transform_message transformed t m) [
    | none ↦ (negsuc 0, destroy t m)
    | some t₁ ↦
        let (count, t₂) = broadcast_loop (list_count (t.stored m).tolist) 0 t₁ m 0 in
        (pos count, finish t₂ m)
  ]

-- _broadcast2_loop() for the session at `a`; the allocations of the list succeed.
unfoldable pub broadcast2_loop : Reply → Local → ℕ → ℕ → Local
unfolding add_receiver message_or note send_message
broadcast2_loop r t m a =
    let v = t.stored m in
    let t₁ = note t m (message_or v (add_receiver 0 true true v (t.sender a).id)) in
    (send_message r t₁ a m).1

-- The context: the thread, and the number of sessions seen.
unfoldable pub broadcast2_each : (ℕ → Reply) → ℕ → Local × ℕ → ℕ → Bool × (Local × ℕ)
unfolding broadcast2_loop
broadcast2_each replies m (t, i) a = (true, (broadcast2_loop (replies i) t m a, i + 1))

unfoldable pub broadcast2_direct : (ℕ → Reply) → Transformed → Local → ℕ → ℤ × Local
unfolding transform_message reserve_receivers message_or note foreach broadcast2_each finish destroy
broadcast2_direct replies transformed t m = elim (transform_message transformed t m) [
  | none ↦ (negsuc 0, destroy t m)
  | some t₁ ↦
      let v = t₁.stored m in
      let t₂ = note t₁ m (message_or v (reserve_receivers 0 true true v t₁.manager.count)) in
      let (count, (t₃, i)) = foreach t₂.manager (broadcast2_each replies m) (t₂, 0) in
      (pos count, finish t₃ m)
]

-- _send_direct(): the bytes, as the layer has transformed them, to the session with the id.
unfoldable pub send_bytes : Reply → Local → Option ℕ → List ℕ → ℤ × Local
unfolding session_send
send_bytes r t none bs = (pos 0, t)
send_bytes r t (some a) bs =
    let (rc, s) = session_send r.transformed r.pushed r.answer r.address (load t a) bs in
    (rc, save t a s)

unfoldable pub send_task : Transformed → Reply → Local → ℕ → List ℕ → ℤ × Local
unfolding get send_bytes
send_task same r t id bs = send_bytes r t (get t.manager id) bs
send_task (other bs') r t id bs = send_bytes r t (get t.manager id) bs'
send_task refused r t id bs = (pos 0, t)

-- A `uint8_t` from SID_INDEX.
abbrev pub to_u8 : ℤ → ℕ
to_u8 (pos n) = n % 2 ^ 8
to_u8 (negsuc n) = 2 ^ 8 - 1 - n % 2 ^ 8

abbrev pub sent_or_error : ℤ × Local → ℤ × Local
sent_or_error (pos zero, t) = (negsuc 2, t)
sent_or_error (pos (suc n), t) = (pos 0, t)
sent_or_error (negsuc n, t) = (negsuc 2, t)

-- _send_buffer() on thread `here` of `nthreads`; `posted` is what iothreads_post() answers.
unfoldable pub layer_send : ℕ → ℕ → ℤ → Transformed → Reply → Local → ℕ → List ℕ → ℤ × Local
unfolding sid_index send_task
layer_send nthreads here posted transformed r t id bs =
    let index = to_u8 (sid_index id) in
    if leb nthreads index
    then (negsuc 0, t)
    else if index == here
    then sent_or_error (send_task transformed r t id bs)
    else (posted, t)

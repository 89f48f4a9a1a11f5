-- ===== src/Network/Tests.antt =====
-- The sending tasks of src/network.c at small concrete inputs.
use libevlite.Base.{
  ℕ, zero, suc, ◌+◌, ◌<◌, ◌≡◌, refl, true, false, none, some, [], ◌∷◌, ◌==◌, if◌then◌else◌, arith,
  length,
}
use libevlite.Base.Int.{pos, negsuc}
use libevlite.Base.Words.{u32_mod}
use libevlite.Session.Sid.{sid_seq, sid_version}
use libevlite.Session.Manager.Defs.{Manager, session}
use libevlite.Message.Defs.{Message, list_count}
use libevlite.Channel.Defs.{Sender, Store, same, refused, would_block}
use libevlite.Network.Defs.{
  Local, Reply, layer_send, broadcast_direct, broadcast2_direct, finish, transform_message,
}
use libevlite.Network.Account.{is_of}
use libevlite.Network.Live.{live}
use libevlite.Network.Held.{held, tally, IsOnce}
use libevlite.Network.Rounds.{locals}
use libevlite.Network.Broadcast.{Frees, broadcast_direct-counts, broadcast_direct-safe}
use libevlite.Network.Everyone.{broadcast2_direct-safe}

-- Two sessions, 100 and 200, in the slots of thread 1.
abbrev two_sessions : Manager
two_sessions = record {
  index = 1;
  count = 2;
  capacity = 2;
  table =
      record { link = session 100; version = 0; is_active = true }
      ∷ record { link = session 200; version = 0; is_active = true }
      ∷ [];
  free_head = 0xFFFFFFFF;
  recyclesize = 0;
  recyclelist = [];
}

abbrev id_100 : ℕ
id_100 = 2199023255552

abbrev plain : Message
plain = record { nsuccess = 0; nfailure = 0; buffer = some (1 ∷ 2 ∷ []); length = 2; tolist = none }

-- Message 9 is for both sessions.
abbrev messages : Store
messages a =
    if a == 9
    then record plain {
      tolist = some (record { count = 2; size = 2; entries = id_100 ∷ 2199023255553 ∷ [] });
    }
    else plain

abbrev idle_sender : ℕ → Sender
idle_sender a = record {
  id = if a == 100 then id_100 else 2199023255553;
  writing = false;
  exiting = false;
  msgoffset = 0;
  sendqueue = [];
  stored = messages;
  wire = [];
  destroyed = [];
}

abbrev quiet : Local
quiet = record { manager = two_sessions; stored = messages; destroyed = []; sender = idle_sender }

abbrev taken : Reply
taken = record { transformed = same; answer = would_block; address = none; pushed = true }

-- The service of the first session refuses the message.
abbrev first_refuses : ℕ → Reply
first_refuses zero = record taken { transformed = refused }
first_refuses (suc j) = taken

first_fresh : (j : ℕ) → is_of (first_refuses j).address 9 ≡ false
first_fresh zero = refl
first_fresh (suc j) = refl

fresh_8 : (j : ℕ) → is_of (first_refuses j).address 8 ≡ false
fresh_8 zero = refl
fresh_8 (suc j) = refl

live_two : live two_sessions.table ≡ 100 ∷ 200 ∷ []
unfolding live
live_two = refl

once : IsOnce quiet
unfolding live
once a = ground arith

abbrev all_take : ℕ → Reply
all_take j = taken

untouched : tally quiet 9 ≡ 0
unfolding live held
untouched = refl

broadcast_direct-counts_example :
    (count : ℕ) × (t' : Local) × (broadcast_direct 1 first_refuses same quiet 9
      ≡ (pos count, finish t' 9))
    × (tally t' 9 + count ≡ 2 + locals 1 quiet 9 0 2)
    × (tally t' 9 < u32_mod)
    × ((t'.stored 9).tolist ≡ (quiet.stored 9).tolist)
unfolding transform_message list_count
broadcast_direct-counts_example =
    broadcast_direct-counts 1 first_refuses same quiet quiet 9 once first_fresh refl untouched
      (omega arith)

-- The first session refuses the message, the second one queues it: it is destroyed all the same.
destroyed_while_held :
    let t' = (broadcast_direct 1 first_refuses same quiet 9).1 in
    (t'.destroyed ≡ 9 ∷ []) × ((t'.sender 200).sendqueue ≡ 9 ∷ [])
unfolding broadcast_direct sid_seq sid_version
destroyed_while_held = (refl, refl)

all_took : (broadcast_direct 1 all_take same quiet 9).0 ≡ pos (locals 1 quiet 9 0 2)
unfolding broadcast_direct locals sid_seq sid_version
all_took = refl

broadcast_direct-safe_example : Frees quiet 9 (broadcast_direct 1 all_take same quiet 9).1
unfolding transform_message list_count
broadcast_direct-safe_example =
    broadcast_direct-safe 1 all_take same quiet quiet 9 once (λ j. refl) refl untouched
      (omega arith) all_took

untouched_8 : tally quiet 8 ≡ 0
unfolding live held
untouched_8 = refl

broadcast2_direct-safe_example :
    let (rc, t') = broadcast2_direct first_refuses same quiet 8 in
    (rc ≡ pos (length (live quiet.manager.table)))
    × (list_count (t'.stored 8).tolist ≡ length (live quiet.manager.table))
    × Frees quiet 8 t'
unfolding transform_message live
broadcast2_direct-safe_example =
    broadcast2_direct-safe first_refuses same quiet quiet 8 once fresh_8 refl refl untouched_8
      (omega arith) (omega arith)

-- The bytes wait in the queue of the session, since write() would have blocked, and the answer is -3.
queued_yet_failed :
    let (rc, t') =
      layer_send 2 1 (pos 0) same (record taken { address = some 7 }) quiet id_100 (1 ∷ []) in
    (rc ≡ negsuc 2) × ((t'.sender 100).sendqueue ≡ 7 ∷ [])
unfolding layer_send sid_seq sid_version
queued_yet_failed = (refl, refl)

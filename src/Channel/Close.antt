-- ===== src/Channel/Close.antt =====
-- The send queue when a session ends or connects again: session_end(), session_sendqueue_take() and
-- session_sendqueue_merge() of src/session.c.
use libevlite.Base.{ℕ, List, [], ◌∷◌, ◌++◌, if◌then◌else◌}
use libevlite.Message.Defs.{add_failure, is_complete}
use libevlite.Channel.Defs.{Store, update, Sender, Popped}

-- The loop of session_end() over the queue.
unfoldable pub end_queue : Store → List ℕ → Popped
unfolding update add_failure is_complete
end_queue stored [] = record { remaining = stored; offset = 0; queue = []; gone = [] }
end_queue stored (a ∷ q) =
    let m = add_failure (stored a) in
    let rest = end_queue (update stored a m) q in
    record rest { gone = if is_complete m then a ∷ rest.gone else rest.gone }

-- What session_end() does with the queue.
unfoldable pub end_sender : Sender → Sender
unfolding end_queue
end_sender s =
    let p = end_queue s.stored s.sendqueue in
    record s { stored = p.remaining; sendqueue = p.queue; destroyed = s.destroyed ++ p.gone }

-- The queue taken, and the session with a new one.
unfoldable pub sendqueue_take : Sender → List ℕ × Sender
sendqueue_take s = (s.sendqueue, record s { msgoffset = 0; sendqueue = [] })

-- QUEUE_PUSH has room.
unfoldable pub sendqueue_merge : Sender → List ℕ → Sender
sendqueue_merge s [] = s
sendqueue_merge s (a ∷ q) = sendqueue_merge (record s { sendqueue = s.sendqueue ++ a ∷ [] }) q

-- ===== src/Channel/Handlers.antt =====
-- The handlers of src/channel.c for the events of a session and its tasks, session_shutdown() of
-- src/session.c, and what the event loop does with the event before (src/event.c).
use libevlite.Base.{ℕ, ◌+◌, Bool, true, false, ◌&&◌, ◌||◌, not, ltb, if◌then◌else◌}
use libevlite.Base.Int.{ℤ, pos, negsuc, ltb_ℤ}
use libevlite.Event.Sets.{is_zero}
use libevlite.Channel.Status.{
  Client, accept_type, connect_type, associate_type, shared_type, nowhere, in_set, is_reattch,
  add_read, add_write, del_read, start_keepalive, stop, start_reconnect,
}

-- What the service answers, and what it does to the session meanwhile.
pub record Service : Type 0 where
  pub process : Client → ℤ × Client
  pub timeout : Client → ℤ × Client
  pub keepalive : Client → ℤ × Client
  pub error : Client → ℤ × Client
  pub start : Client → Client
  pub perform : Client → ℤ × Client
  pub shutdown : Client → Client

-- What transmit() answers, and the length of the queue that it leaves.
pub record Transmission : Type 0 where
  pub writen : ℤ
  pub left : ℕ

module _ (service : Service) where
  -- channel_shutdown(), with the queue emptied by session_end().
  unfoldable pub channel_shutdown : Client → Client
  unfolding stop
  channel_shutdown c = record (stop (service.shutdown c)) { queue_count = 0; ended = true }

  unfoldable pub session_shutdown : Client → ℤ × Client
  unfolding channel_shutdown del_read add_write
  session_shutdown c =
      if not c.exiting && ltb 0 c.queue_count
      then (pos 1, add_write (del_read (record c { exiting = true })))
      else (pos 0, channel_shutdown c)

  unfoldable pub on_timeout : Client → Client
  unfolding session_shutdown is_reattch start_reconnect add_read start_keepalive
  on_timeout c =
      let (rc, c') = service.timeout c in
      if not (is_zero rc) || c'.exiting
      then (session_shutdown c').1
      else if is_reattch c'
      then (start_reconnect c').1
      else start_keepalive (add_read c')

  unfoldable pub channel_error : Client → Client
  unfolding is_reattch channel_shutdown start_reconnect
  channel_error c =
      let (rc, c') = service.error c in
      if not (is_reattch c) || (not (is_zero rc) || c'.exiting)
      then channel_shutdown c'
      else (start_reconnect c').1

  -- Behind the processing of what was read; `good` is whether the read was or is to be repeated.
  unfoldable pub after_read : Bool → ℤ × Client → Client
  unfolding del_read session_shutdown add_read channel_error
  after_read good (negsuc n, c) = (session_shutdown (if c.persist_mode then del_read c else c)).1
  after_read good (pos n, c) =
      if good
      then if c.persist_mode then c else add_read c
      else channel_error (if c.persist_mode then del_read c else c)

  -- `readable` is EV_READ, and `running` the status of the layer.
  unfoldable pub channel_on_read : Bool → Bool → Bool → Client → Client
  unfolding after_read del_read on_timeout
  channel_on_read readable running good c =
      let c' = if c.persist_mode then c else record c { reading = false } in
      if readable
      then after_read good (if running then service.process c' else (pos 0, c'))
      else on_timeout (if c'.persist_mode then del_read c' else c')

  unfoldable pub under_limit : Client → Bool
  under_limit c =
      not (ltb_ℤ (pos 0) c.sendqueue_limit) || ltb_ℤ (pos c.queue_count) c.sendqueue_limit

  -- Behind the transmission.
  unfoldable pub after_transmit : ℤ → Client → Client
  unfolding channel_error add_write under_limit channel_shutdown
  after_transmit (negsuc n) c = channel_error c
  after_transmit (pos n) c =
      if ltb 0 c.queue_count
      then if under_limit c then add_write c else channel_error c
      else if c.exiting
      then channel_shutdown c
      else c

  unfoldable pub channel_on_write : Bool → Transmission → Client → Client
  unfolding after_transmit channel_shutdown
  channel_on_write writable sent c =
      let c' = record c { writing = false } in
      if writable
      then if ltb 0 c'.queue_count
        then after_transmit sent.writen (record c' { queue_count = sent.left })
        else c'
      else channel_shutdown c'

  unfoldable pub channel_on_keepalive : Client → Client
  unfolding start_keepalive
  channel_on_keepalive c =
      let (rc, c') = service.keepalive (record c { keepaliving = false }) in
      if is_zero rc then start_keepalive c' else c'

  -- `opened` is the answer of tcp_connect(), or of the function that attaches the session again.
  unfoldable pub opened_by : ℤ → Client → ℤ
  opened_by opened c = elim c.type [
    | accept_type ↦ c.fd
    | connect_type ↦ opened
    | associate_type ↦ opened
    | shared_type ↦ c.fd
  ]

  unfoldable pub channel_on_reconnect : ℤ → Client → Client
  unfolding opened_by channel_error
  channel_on_reconnect opened c =
      let c' = record c { writing = false; fd = opened_by opened c } in
      if ltb_ℤ c'.fd (pos 0) then channel_error c' else record c' {
        evwrite = in_set c'.fd true c'.accepts_write (negsuc 0) c'.evwrite;
        writing = true;
      }

  -- `connected` is whether is_connected() answers 0.
  unfoldable pub reconnected : Bool → Bool → Client → Client
  unfolding channel_error add_read add_write start_keepalive on_timeout
  reconnected writable connected c =
      let c' = record c { writing = false } in
      let started = service.start (record c' { queue_count = 0 }) in
      let merged = record started { queue_count = started.queue_count + c.queue_count } in
      if writable
      then if connected then start_keepalive (add_write (add_read merged)) else channel_error c'
      else on_timeout c'

  -- The event of the task is not one of the session's.
  unfoldable pub channel_on_schedule : Client → Client
  unfolding session_shutdown
  channel_on_schedule c =
      let (rc, c') = service.perform c in
      if ltb_ℤ rc (pos 0) then (session_shutdown (record c' { shutdowning = true })).1 else c'

-- The event loop takes the event out of the event set, unless it is persistent.
unfoldable pub read_taken : Client → Client
read_taken c = record c { evread = if c.persist_mode then c.evread else nowhere }

unfoldable pub write_taken : Client → Client
write_taken c = record c { evwrite = nowhere }

-- The events of a session with what comes with them.
pub data Happening : Type 0 where
  read_event : Bool → Bool → Bool → Happening
  write_event : Bool → Transmission → Happening
  reconnect_event : ℤ → Happening
  reconnected_event : Bool → Bool → Happening
  keepalive_event : Happening
  schedule_event : Happening

unfoldable pub handle : Service → Happening → Client → Client
unfolding read_taken write_taken channel_on_read channel_on_write channel_on_reconnect reconnected
    channel_on_keepalive channel_on_schedule
handle service (read_event readable running good) c =
    channel_on_read service readable running good (read_taken c)
handle service (write_event writable sent) c =
    channel_on_write service writable sent (write_taken c)
handle service (reconnect_event opened) c = channel_on_reconnect service opened (write_taken c)
handle service (reconnected_event writable connected) c =
    reconnected service writable connected (write_taken c)
handle service keepalive_event c = channel_on_keepalive service (record c { evkeepalive = nowhere })
handle service schedule_event c = channel_on_schedule service c

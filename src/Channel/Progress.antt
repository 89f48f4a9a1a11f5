-- ===== src/Channel/Progress.antt =====
-- A session that has something to send (channel_on_write() of src/channel.c).
use libevlite.Base.{
  ◌≡◌, refl, sym, ap, ◌∙◌, subst, Bool, true, false, ◌&&◌, ◌||◌, not, ltb, ◌==◌, if◌then◌else◌,
  arith, Bool-cases, inl, inr,
}
use libevlite.Base.Int.{ℤ, pos, negsuc}
use libevlite.Event.Sets.{is_zero, is_positive}
use libevlite.Channel.Status.{
  Client, is_in, in_set, is_reattch, add_write, stop, reconnecting, start_reconnect,
  max_seconds_wait_for_shutdown,
}
use libevlite.Channel.Handlers.{
  Service, Transmission, channel_shutdown, channel_error, under_limit, after_transmit,
  channel_on_write,
}

-- The session is over, has nothing to send, or its event for writing is in the event set.
abbrev pub settled : Client → Bool
settled c = c.ended || (c.queue_count == 0 || is_in c.evwrite)

-- If SESSION_WRITING is set, the event for writing is in the event set.
abbrev pub is_alert : Client → Bool
is_alert c = not c.writing || is_in c.evwrite

or_true : (b : Bool) → (b || true) ≡ true
or_true true = refl
or_true false = refl

waiting_settled : (c : Client) → is_in c.evwrite ≡ true → settled c ≡ true
waiting_settled c h =
    ap (λ w. c.ended || (c.queue_count == 0 || w)) h
    ∙ ap (λ w. c.ended || w) (or_true (c.queue_count == 0))
    ∙ or_true c.ended

true_or : (b b' : Bool) → b ≡ true → ((b || b')) ≡ true
true_or true b' h = refl
true_or false b' h = absurd cc

-- evsets_add() puts the event into the event set.
add_write-settled :
    (c : Client)
    → c.writing ≡ false
    → is_positive c.fd ≡ true
    → c.accepts_write ≡ true
    → settled (add_write c) ≡ true
unfolding add_write
add_write-settled c off usable accepts =
    let tv = if c.exiting then pos max_seconds_wait_for_shutdown else negsuc 0 in
    let added : Client = record c {
      evwrite = in_set c.fd true c.accepts_write tv c.evwrite;
      writing = true;
    } in
    let io : added.evwrite.io ≡ true =
      ap (λ b. c.evwrite.io || (b && c.accepts_write)) usable
      ∙ ap (λ b. c.evwrite.io || b) accepts
      ∙ or_true c.evwrite.io in
    subst (λ (b : Bool). settled (if b then c else added) ≡ true) (sym off)
      (waiting_settled added (true_or added.evwrite.io added.evwrite.timer io))

alert_waits : (c : Client) → c.writing ≡ true → is_alert c ≡ true → is_in c.evwrite ≡ true
alert_waits c on alert = sym (ap (λ b. not b || is_in c.evwrite) on) ∙ alert

start_reconnect-settled :
    (c : Client) → c.exiting ≡ false → is_alert c ≡ true → settled (start_reconnect c).1 ≡ true
unfolding start_reconnect stop
start_reconnect-settled c stays alert =
    let again : ℤ × Client = (pos 0, reconnecting (stop c)) in
    let first : Bool → ℤ × Client =
      λ b. if b then (negsuc 0, c) else if c.writing then (negsuc 1, c) else again in
    let next : Bool → ℤ × Client = λ b. if b then (negsuc 1, c) else again in
    subst (λ b. settled (first b).1 ≡ true) (sym stays)
      (elim (Bool-cases c.writing) [
        | inl on ↦
            subst (λ b. settled (next b).1 ≡ true) (sym on)
              (waiting_settled c (alert_waits c on alert))
        | inr off ↦
            subst (λ b. settled (next b).1 ≡ true) (sym off)
              (waiting_settled again.1 (or_true again.1.evwrite.io))
      ])

last_of_three : (a b c : Bool) → (a || (b || c)) ≡ false → c ≡ false
last_of_three true b c h = absurd cc
last_of_three false true c h = absurd cc
last_of_three false false c h = h

settled_if :
    (b : Bool) (c c' : Client)
    → settled c ≡ true
    → settled c' ≡ true
    → settled (if b then c else c') ≡ true
settled_if true c c' h h' = h
settled_if false c c' h h' = h'

module _ (service : Service)
    (error_keeps : (c : Client) → is_alert c ≡ true → is_alert (service.error c).1 ≡ true) where
  channel_shutdown-settled : (c : Client) → settled (channel_shutdown service c) ≡ true
  unfolding channel_shutdown
  channel_shutdown-settled c = refl

  channel_error-settled :
      (c : Client) → is_alert c ≡ true → settled (channel_error service c) ≡ true
  unfolding channel_error
  channel_error-settled c alert =
      let rc = (service.error c).0 in
      let c' = (service.error c).1 in
      let over : Bool → Client =
        λ b. if b then channel_shutdown service c' else (start_reconnect c').1 in
      let cond = not (is_reattch c) || (not (is_zero rc) || c'.exiting) in
      elim (Bool-cases cond) [
        | inl ends ↦ subst (λ b. settled (over b) ≡ true) (sym ends) (channel_shutdown-settled c')
        | inr goes_on ↦
            subst (λ b. settled (over b) ≡ true) (sym goes_on)
              (start_reconnect-settled c'
                (last_of_three (not (is_reattch c)) (not (is_zero rc)) c'.exiting goes_on)
                (error_keeps c alert))
      ]

  empty_settled : (c : Client) → ltb 0 c.queue_count ≡ false → settled c ≡ true
  empty_settled c h =
      let none_left : (c.queue_count == 0) ≡ true = ground arith in
      ap (λ e. c.ended || (e || is_in c.evwrite)) none_left ∙ or_true c.ended

  after_transmit-settled :
      (writen : ℤ) (c : Client)
      → c.writing ≡ false
      → is_positive c.fd ≡ true
      → c.accepts_write ≡ true
      → settled (after_transmit service writen c) ≡ true
  unfolding after_transmit
  after_transmit-settled (negsuc n) c off usable accepts =
      channel_error-settled c (ap (λ b. not b || is_in c.evwrite) off)
  after_transmit-settled (pos n) c off usable accepts =
      let alert = ap (λ b. not b || is_in c.evwrite) off in
      let waits = if under_limit service c then add_write c else channel_error service c in
      let rests = if c.exiting then channel_shutdown service c else c in
      elim (Bool-cases (ltb 0 c.queue_count)) [
        | inl some_left ↦
            subst (λ b. settled (if b then waits else rests) ≡ true) (sym some_left)
              (settled_if (under_limit service c) (add_write c) (channel_error service c)
                (add_write-settled c off usable accepts) (channel_error-settled c alert))
        | inr empty ↦
            subst (λ b. settled (if b then waits else rests) ≡ true) (sym empty)
              (settled_if c.exiting (channel_shutdown service c) c (channel_shutdown-settled c)
                (empty_settled c empty))
      ]

  -- After channel_on_write() the session is over, or its send queue is empty, or its event for writing is
  -- in the event set, in whatever state it was and whatever the transmission answers: no data
  -- are left in the queue of a session that nothing wakes. The descriptor is greater than 0,
  -- the backend accepts the event, and the error callback of the service does not leave SESSION_WRITING set without
  -- the event in the event set.
  pub channel_on_write-settled :
      (writable : Bool) (sent : Transmission) (c : Client)
      → is_positive c.fd ≡ true
      → c.accepts_write ≡ true
      → settled (channel_on_write service writable sent c) ≡ true
  unfolding channel_on_write
  channel_on_write-settled writable sent c usable accepts =
      let c' : Client = record c { writing = false } in
      let left : Client = record c' { queue_count = sent.left } in
      let after = after_transmit service sent.writen left in
      let sends = if ltb 0 c.queue_count then after else c' in
      elim (Bool-cases (ltb 0 c.queue_count)) [
        | inl some_left ↦
            settled_if writable sends (channel_shutdown service c')
              (subst (λ b. settled (if b then after else c') ≡ true) (sym some_left)
                (after_transmit-settled sent.writen left refl usable accepts))
              (channel_shutdown-settled c')
        | inr empty ↦
            settled_if writable sends (channel_shutdown service c')
              (subst (λ b. settled (if b then after else c') ≡ true) (sym empty)
                (empty_settled c' empty))
              (channel_shutdown-settled c')
      ]

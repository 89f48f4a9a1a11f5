-- ===== src/Channel/Waiting.antt =====
-- The status of a session against the events it waits for (src/session.c, src/channel.c).
use libevlite.Base.{
  ◌≡◌, refl, sym, subst, Bool, true, false, ◌&&◌, ◌||◌, not, if◌then◌else◌, Bool-cases, inl, inr,
}
use libevlite.Base.Int.{ℤ, pos, negsuc, ltb_ℤ}
use libevlite.Channel.Status.{
  max_seconds_wait_for_shutdown, Waiting, nowhere, is_in, in_set, is_shared, Client, add_read,
  add_write, del_read, start_keepalive, stop, reconnecting, start_reconnect,
}
use libevlite.Channel.Handlers.{read_taken}

-- An event of the session that is in the event set has its bit in the status.
pub record IsCoherent (c : Client) : Type 0 where
  pub read : (not c.reading && is_in c.evread) ≡ false
  pub write : (not c.writing && is_in c.evwrite) ≡ false
  pub keepalive : (not c.keepaliving && is_in c.evkeepalive) ≡ false

-- Some event of the session is in the event set.
abbrev pub is_waiting : Client → Bool
is_waiting c = is_in c.evread || (is_in c.evwrite || is_in c.evkeepalive)

pub record IsLive (c : Client) : Type 0 where
  pub coherent : IsCoherent c
  pub goes_on : c.ended ≡ false

-- After session_end(), no event of the session is in the event set.
pub record IsSafe (c : Client) : Type 0 where
  pub coherent : IsCoherent c
  pub gone : (c.ended && is_waiting c) ≡ false

pub safe : (c : Client) → IsLive c → IsSafe c
safe c v = record { coherent = v.coherent; gone = rw v.goes_on refl }

-- The choice between two states.
pub if_IsLive : (b : Bool) (c c' : Client) → IsLive c → IsLive c' → IsLive (if b then c else c')
if_IsLive true c c' v v' = v
if_IsLive false c c' v v' = v'

pub if_IsSafe : (b : Bool) (c c' : Client) → IsSafe c → IsSafe c' → IsSafe (if b then c else c')
if_IsSafe true c c' v v' = v
if_IsSafe false c c' v v' = v'

pub pair_IsLive :
    (b : Bool) (r r' : ℤ × Client) → IsLive r.1 → IsLive r'.1 → IsLive (if b then r else r').1
pair_IsLive true r r' v v' = v
pair_IsLive false r r' v v' = v'

pub pair_IsSafe :
    (b : Bool) (r r' : ℤ × Client) → IsSafe r.1 → IsSafe r'.1 → IsSafe (if b then r else r').1
pair_IsSafe true r r' v v' = v
pair_IsSafe false r r' v v' = v'

-- A bit that is set, and one that is cleared for an event that is nowhere.
with_read : (c : Client) (w : Waiting) → IsLive c → IsLive (record c { evread = w; reading = true })
with_read c w v = record {
  coherent = record { read = refl; write = v.coherent.write; keepalive = v.coherent.keepalive };
  goes_on = v.goes_on;
}

no_read : (c : Client) → IsLive c → IsLive (record c { evread = nowhere; reading = false })
no_read c v = record {
  coherent = record { read = refl; write = v.coherent.write; keepalive = v.coherent.keepalive };
  goes_on = v.goes_on;
}

pub with_write :
    (c : Client) (w : Waiting) → IsLive c → IsLive (record c { evwrite = w; writing = true })
with_write c w v = record {
  coherent = record { read = v.coherent.read; write = refl; keepalive = v.coherent.keepalive };
  goes_on = v.goes_on;
}

pub no_write : (c : Client) → IsLive c → IsLive (record c { evwrite = nowhere; writing = false })
no_write c v = record {
  coherent = record { read = v.coherent.read; write = refl; keepalive = v.coherent.keepalive };
  goes_on = v.goes_on;
}

pub with_keepalive :
    (c : Client) (w : Waiting) (b : Bool)
    → (not b && is_in w) ≡ false
    → IsLive c
    → IsLive (record c { evkeepalive = w; keepaliving = b })
with_keepalive c w b h v = record {
  coherent = record { read = v.coherent.read; write = v.coherent.write; keepalive = h };
  goes_on = v.goes_on;
}

pub add_read-IsLive : (c : Client) → IsLive c → IsLive (add_read c)
unfolding add_read
add_read-IsLive c v =
    let shared = is_shared c.type in
    let w =
      in_set (if shared then negsuc 0 else c.fd) (not shared) c.accepts_read c.timeout_msecs
        c.evread in
    if_IsLive (not c.exiting && not c.reading) (record c { evread = w; reading = true }) c
      (with_read c w v) v

pub add_write-IsLive : (c : Client) → IsLive c → IsLive (add_write c)
unfolding add_write
add_write-IsLive c v =
    let tv = if c.exiting then pos max_seconds_wait_for_shutdown else negsuc 0 in
    let w = in_set c.fd true c.accepts_write tv c.evwrite in
    if_IsLive c.writing c (record c { evwrite = w; writing = true }) v (with_write c w v)

pub del_read-IsLive : (c : Client) → IsLive c → IsLive (del_read c)
unfolding del_read
del_read-IsLive c v =
    if_IsLive c.reading (record c { evread = nowhere; reading = false }) c (no_read c v) v

pub start_keepalive-IsLive : (c : Client) → IsLive c → IsLive (start_keepalive c)
unfolding start_keepalive
start_keepalive-IsLive c v =
    let w = in_set (negsuc 0) false false c.keepalive_msecs c.evkeepalive in
    if_IsLive (not (ltb_ℤ c.keepalive_msecs (pos 0)) && not c.keepaliving)
      (record c { evkeepalive = w; keepaliving = true }) c (with_keepalive c w true refl v) v

none_left :
    (b : Bool) (w : Waiting) → (not b && is_in w) ≡ false → is_in (if b then nowhere else w) ≡ false
none_left true w h = refl
none_left false w h = h

none_of_three : (a b c : Bool) → a ≡ false → b ≡ false → c ≡ false → (a || (b || c)) ≡ false
none_of_three true b c h i j = absurd cc
none_of_three false true c h i j = absurd cc
none_of_three false false c h i j = j

-- _stop() leaves no event of the session in the event set.
pub stop-quiet : (c : Client) → IsCoherent c → is_waiting (stop c) ≡ false
unfolding stop
stop-quiet c v =
    none_of_three (is_in (stop c).evread) (is_in (stop c).evwrite) (is_in (stop c).evkeepalive)
      (none_left c.reading c.evread v.read) (none_left c.writing c.evwrite v.write)
      (none_left c.keepaliving c.evkeepalive v.keepalive)

pub stop-IsCoherent : (c : Client) → IsCoherent c → IsCoherent (stop c)
unfolding stop
stop-IsCoherent c v = record {
  read = none_left c.reading c.evread v.read;
  write = none_left c.writing c.evwrite v.write;
  keepalive = none_left c.keepaliving c.evkeepalive v.keepalive;
}

stop-IsLive : (c : Client) → IsLive c → IsLive (stop c)
unfolding stop
stop-IsLive c v = record { coherent = stop-IsCoherent c v.coherent; goes_on = v.goes_on }

pub start_reconnect-IsLive : (c : Client) → IsLive c → IsLive (start_reconnect c).1
unfolding start_reconnect
start_reconnect-IsLive c v =
    let again : ℤ × Client = (pos 0, reconnecting (stop c)) in
    let w = with_write (stop c) (reconnecting (stop c)).evwrite (stop-IsLive c v) in
    pair_IsLive c.exiting (negsuc 0, c) (if c.writing then (negsuc 1, c) else again) v
      (pair_IsLive c.writing (negsuc 1, c) again v w)

-- What the event loop and the handlers do to a persistent event, and to another.
pub taken-IsLive :
    (c : Client)
    → IsLive c
    → IsLive (if c.persist_mode then read_taken c else record (read_taken c) { reading = false })
unfolding read_taken
taken-IsLive c v =
    let out : Bool → Client = λ b. record c { evread = if b then c.evread else nowhere } in
    let Good : Bool → Type 0 =
      λ b. IsLive (if b then out b else record (out b) { reading = false }) in
    elim (Bool-cases c.persist_mode) [
      | inl stays ↦ subst Good (sym stays) (record {
        coherent = record {
          read = v.coherent.read;
          write = v.coherent.write;
          keepalive = v.coherent.keepalive;
        };
        goes_on = v.goes_on;
      })
      | inr once ↦ subst Good (sym once) (no_read c v)
    ]

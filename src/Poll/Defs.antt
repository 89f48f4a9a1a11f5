-- ===== src/Poll/Defs.antt =====
-- `struct eventpair` and `struct epoller` of src/epoll.c and its functions. epoll_ctl() is that of
-- the parameter `k`; what realloc() and epoll_wait() answer are arguments.
use libevlite.Base.{
  ℕ, zero, suc, ◌-◌, ◌*◌, ◌%◌, ◌^◌, Bool, true, false, ◌||◌, ◌&&◌, not, Option, none, some, List,
  ◌++◌, ltb, leb, if◌then◌else◌, get_or, set, replicate,
}
use libevlite.Base.Int.{ℤ, pos, negsuc}
use libevlite.Event.Defs.{Event}
use libevlite.Poll.Kernel.{
  CtlOp, ctl_add, ctl_mod, ctl_del, CtlError, enoent, eexist, other_error, Interest, Epoll,
}

-- `none` is NULL.
pub record EventPair : Type 0 where
  pub evread : Option ℕ
  pub evwrite : Option ℕ

abbrev pub no_pair : EventPair
no_pair = record { evread = none; evwrite = none }

-- The array of events for epoll_wait() is its size.
pub record Epoller (K : Type 0) : Type 0 where
  pub npairs : ℕ
  pub evpairs : List EventPair
  pub nevents : ℕ
  pub kernel : K

abbrev pub init_events : ℕ
init_events = 1024

abbrev pub is_some : Option ℕ → Bool
is_some none = false
is_some (some e) = true

-- The loop of epoll_insert(), on fuel; `none` is out of fuel, or an overflow of int32_t.
unfoldable pub widen_pairs : ℕ → ℕ → ℕ → Option ℕ
widen_pairs zero last npairs = none
widen_pairs (suc fuel) last npairs =
    let rest = widen_pairs fuel last (npairs * 2) in
    if leb npairs last then if ltb (npairs * 2) (2 ^ 31) then rest else none else some npairs

-- What an addition to a pair asks of the kernel.
abbrev pub asked : EventPair → Event → Interest
asked p ev = record {
  epollin = is_some p.evread || ev.events.ev_read;
  epollout = is_some p.evwrite || ev.events.ev_write;
}

abbrev pub joined : EventPair → ℕ → Event → EventPair
joined p e ev = record {
  evread = if ev.events.ev_read then some e else p.evread;
  evwrite = if ev.events.ev_write then some e else p.evwrite;
}

abbrev pub keeps_write : EventPair → Event → Bool
keeps_write p ev =
    not (ev.events.ev_read && ev.events.ev_write) && (ev.events.ev_read && is_some p.evwrite)

abbrev pub keeps_read : EventPair → Event → Bool
keeps_read p ev =
    not (ev.events.ev_read && ev.events.ev_write)
    && (not (keeps_write p ev) && (ev.events.ev_write && is_some p.evread))

-- `epoll_ctl( ... ) == -1 ? -2 : 0`
unfoldable pub ctl_answer : Option CtlError → ℤ
ctl_answer none = pos 0
ctl_answer (some error) = negsuc 1

module _ {K : Type 0} (k : Epoll K) where
  unfoldable pub epoll_init : Bool → K → Option (Epoller K)
  epoll_init allocated kernel =
      if allocated
      then some (record {
        npairs = init_events;
        evpairs = replicate init_events no_pair;
        nevents = init_events;
        kernel = kernel;
      })
      else none

  unfoldable pub epoll_expand : Bool → Epoller K → ℤ × Epoller K
  epoll_expand allocated b =
      if allocated then (pos 0, record b { nevents = (b.nevents * 2) % 2 ^ 32 }) else (negsuc 0, b)

  -- int32_t doubles at most 31 times.
  unfoldable pub epoll_insert : Bool → Epoller K → ℕ → Option (ℤ × Epoller K)
  unfolding widen_pairs
  epoll_insert allocated b last = elim (widen_pairs 32 last b.npairs) [
    | none ↦ none
    | some n ↦
        if allocated
        then some (
          pos 0,
          record b { npairs = n; evpairs = b.evpairs ++ replicate (n - b.npairs) no_pair },
        )
        else some (negsuc 0, b)
  ]

  -- The second call of epoll_add() after the first one has failed.
  unfoldable pub retry : CtlOp → Option CtlError × K → ℕ → Interest → Option CtlError × K
  retry ctl_mod (some enoent, s) fd m = k.ctl s ctl_add fd m
  retry ctl_mod (some eexist, s) fd m = (some eexist, s)
  retry ctl_mod (some other_error, s) fd m = (some other_error, s)
  retry ctl_add (some eexist, s) fd m = k.ctl s ctl_mod fd m
  retry ctl_add (some enoent, s) fd m = (some enoent, s)
  retry ctl_add (some other_error, s) fd m = (some other_error, s)
  retry ctl_del (some error, s) fd m = (some error, s)
  retry op (none, s) fd m = (none, s)

  unfoldable pub after_ctl : Epoller K → ℕ → EventPair → Option CtlError × K → ℤ × Epoller K
  after_ctl b fd p (some error, s) = (negsuc 1, record b { kernel = s })
  after_ctl b fd p (none, s) = (pos 0, record b { kernel = s; evpairs = set b.evpairs fd p })

  -- epoll_add() on a descriptor that has a pair.
  unfoldable pub add_at : Epoller K → ℕ → ℕ → Event → ℤ × Epoller K
  unfolding retry after_ctl
  add_at b fd e ev =
      let p = get_or b.evpairs fd no_pair in
      let op = if is_some p.evread || is_some p.evwrite then ctl_mod else ctl_add in
      let m = asked p ev in after_ctl b fd (joined p e ev) (retry op (k.ctl b.kernel op fd m) fd m)

  unfoldable pub add_inserted : Option (ℤ × Epoller K) → ℕ → ℕ → Event → Option (ℤ × Epoller K)
  unfolding add_at
  add_inserted none fd e ev = none
  add_inserted (some (pos zero, b)) fd e ev = some (add_at b fd e ev)
  add_inserted (some (pos (suc n), b)) fd e ev = some (negsuc 0, b)
  add_inserted (some (negsuc n, b)) fd e ev = some (negsuc 0, b)

  unfoldable pub add_fd : Bool → Epoller K → ℤ → ℕ → Event → Option (ℤ × Epoller K)
  unfolding epoll_insert add_inserted add_at
  add_fd allocated b (negsuc n) e ev = some (negsuc 2, b)
  add_fd allocated b (pos fd) e ev =
      if leb b.npairs fd
      then add_inserted (epoll_insert allocated b fd) fd e ev
      else some (add_at b fd e ev)

  unfoldable pub epoll_add : Bool → Epoller K → ℕ → Event → Option (ℤ × Epoller K)
  unfolding add_fd
  epoll_add allocated b e ev = add_fd allocated b ev.fd e ev

  unfoldable pub del_at : Epoller K → ℕ → Event → ℤ × Epoller K
  unfolding ctl_answer
  del_at b fd ev =
      let p = get_or b.evpairs fd no_pair in
      let write = keeps_write p ev in
      let read = keeps_read p ev in
      let op = if write || read then ctl_mod else ctl_del in
      let m : Interest =
        if write
        then record { epollin = false; epollout = true }
        else if read
        then record { epollin = true; epollout = false }
        else record { epollin = ev.events.ev_read; epollout = ev.events.ev_write } in
      let left : EventPair = record {
        evread = if read then p.evread else none;
        evwrite = if write then p.evwrite else none;
      } in
      let (error, s) = k.ctl b.kernel op fd m in
      (ctl_answer error, record b { kernel = s; evpairs = set b.evpairs fd left })

  -- epoll_del(); `none` is a read before the array.
  unfoldable pub del_fd : Epoller K → ℤ → Event → Option (ℤ × Epoller K)
  unfolding del_at
  del_fd b (negsuc n) ev = none
  del_fd b (pos fd) ev = some (if leb b.npairs fd then (negsuc 0, b) else del_at b fd ev)

  unfoldable pub epoll_del : Epoller K → Event → Option (ℤ × Epoller K)
  unfolding del_fd
  epoll_del b ev = del_fd b ev.fd ev

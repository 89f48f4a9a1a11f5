-- ===== src/Poll/Dispatch.antt =====
-- epoll_dispatch() of src/epoll.c on the event set of src/event.c. What epoll_wait() answers is an argument.
use libevlite.Base.{
  ℕ, Bool, true, ◌||◌, ◌*◌, Option, none, some, List, [], ◌∷◌, length, leb, ◌==◌, if◌then◌else◌,
  get_or,
}
use libevlite.Base.Int.{ℤ, pos, negsuc, ltb_ℤ}
use libevlite.Event.Defs.{EventSet, Mask, no_mask}
use libevlite.Event.Wheel.{event_active}
use libevlite.Poll.Kernel.{Epoll}
use libevlite.Poll.Defs.{EventPair, no_pair, Epoller, epoll_expand}

-- `struct epoll_event`: EPOLLHUP or EPOLLERR, EPOLLIN or EPOLLPRI, and EPOLLOUT.
pub record Ready : Type 0 where
  pub fd : ℤ
  pub hup_or_err : Bool
  pub in_or_pri : Bool
  pub out : Bool

-- The events, or -1 with EINTR, or with another error.
pub data Waited : Type 0 where
  events : List Ready → Waited
  wait_interrupted : Waited
  wait_failed : Waited

abbrev pub max_epoll_wait : ℕ
max_epoll_wait = 35 * 60 * 1000

abbrev pub clamp : ℤ → ℤ
clamp tv = if ltb_ℤ (pos max_epoll_wait) tv then pos max_epoll_wait else tv

-- `evread` and `evwrite` for one descriptor.
abbrev pub ready_read : EventPair → Ready → Option ℕ
ready_read p r = if r.hup_or_err || r.in_or_pri then p.evread else none

abbrev pub ready_write : EventPair → Ready → Option ℕ
ready_write p r = if r.hup_or_err || r.out then p.evwrite else none

module _ {B : Type 0} where
  unfoldable pub activate : EventSet B → Option ℕ → Mask → EventSet B
  unfolding event_active
  activate s none res = s
  activate s (some e) res = (event_active s e res).1

  unfoldable pub deliver_pair : EventSet B → EventPair → Ready → EventSet B
  unfolding activate
  deliver_pair s p r =
      activate (activate s (ready_read p r) (record no_mask { ev_read = true })) (ready_write p r)
        (record no_mask { ev_write = true })

  unfoldable pub deliver_fd : ℕ → List EventPair → EventSet B → ℤ → Ready → EventSet B
  unfolding deliver_pair
  deliver_fd npairs pairs s (negsuc n) r = s
  deliver_fd npairs pairs s (pos fd) r =
      if leb npairs fd then s else deliver_pair s (get_or pairs fd no_pair) r

  -- The loop over what epoll_wait() has reported.
  unfoldable pub deliver : ℕ → List EventPair → EventSet B → List Ready → EventSet B
  unfolding deliver_fd
  deliver npairs pairs s [] = s
  deliver npairs pairs s (r ∷ rs) = deliver npairs pairs (deliver_fd npairs pairs s r.fd r) rs

  module _ {K : Type 0} (k : Epoll K) where
    unfoldable pub after_wait : Bool → EventSet B → Epoller K → Waited → ℤ × EventSet B × Epoller K
    unfolding deliver epoll_expand
    after_wait allocated s b wait_failed = (negsuc 0, s, b)
    after_wait allocated s b wait_interrupted = (pos 0, s, b)
    after_wait allocated s b (events rs) = (
      pos (length rs),
      deliver b.npairs b.evpairs s rs,
      if length rs == b.nevents then (epoll_expand k allocated b).1 else b,
    )

    unfoldable pub epoll_dispatch :
        Bool → (ℤ → Waited) → EventSet B → Epoller K → ℤ → ℤ × EventSet B × Epoller K
    unfolding after_wait
    epoll_dispatch allocated wait s b tv = after_wait allocated s b (wait (clamp tv))

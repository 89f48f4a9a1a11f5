-- ===== src/Poll/Kernel.antt =====
-- What src/epoll.c uses of epoll_ctl() of the system, and the promises of its manual that the
-- lemmas rely on.
use libevlite.Base.{ℕ, Bool, Option, none, some, ◌≡◌, ◌≢◌}

pub data CtlOp : Type 0 where
  ctl_add : CtlOp
  ctl_mod : CtlOp
  ctl_del : CtlOp

pub data CtlError : Type 0 where
  enoent : CtlError
  eexist : CtlError
  other_error : CtlError

-- EPOLLIN and EPOLLOUT of `struct epoll_event`.
pub record Interest : Type 0 where
  pub epollin : Bool
  pub epollout : Bool

-- `K` is the state behind the descriptor of epoll; `ctl` answers no error or one; `interest` is what is
-- registered for a descriptor.
pub record Epoll (K : Type 0) : Type 0 where
  pub ctl : K → CtlOp → ℕ → Interest → Option CtlError × K
  pub interest : K → ℕ → Option Interest

-- The manual of epoll_ctl(): a call changes at most its descriptor, and one that fails changes nothing; an
-- addition of what is registered is EEXIST, a change of what is not is ENOENT. Where memory and the limits of the
-- system suffice, these are the only errors.
pub record IsEpoll {K : Type 0} (k : Epoll K) : Type 0 where
  pub add_new :
      (s : K) (fd : ℕ) (m : Interest)
      → k.interest s fd ≡ none
      → ((k.ctl s ctl_add fd m).0 ≡ none) × (k.interest (k.ctl s ctl_add fd m).1 fd ≡ some m)
  pub add_known :
      (s : K) (fd : ℕ) (m old : Interest)
      → k.interest s fd ≡ some old
      → ((k.ctl s ctl_add fd m).0 ≡ some eexist)
        × (k.interest (k.ctl s ctl_add fd m).1 fd ≡ some old)
  pub mod_new :
      (s : K) (fd : ℕ) (m : Interest)
      → k.interest s fd ≡ none
      → ((k.ctl s ctl_mod fd m).0 ≡ some enoent) × (k.interest (k.ctl s ctl_mod fd m).1 fd ≡ none)
  pub mod_known :
      (s : K) (fd : ℕ) (m old : Interest)
      → k.interest s fd ≡ some old
      → ((k.ctl s ctl_mod fd m).0 ≡ none) × (k.interest (k.ctl s ctl_mod fd m).1 fd ≡ some m)
  pub del_known :
      (s : K) (fd : ℕ) (m old : Interest)
      → k.interest s fd ≡ some old
      → ((k.ctl s ctl_del fd m).0 ≡ none) × (k.interest (k.ctl s ctl_del fd m).1 fd ≡ none)
  pub others :
      (s : K) (op : CtlOp) (fd fd' : ℕ) (m : Interest)
      → fd ≢ fd'
      → k.interest (k.ctl s op fd m).1 fd' ≡ k.interest s fd'

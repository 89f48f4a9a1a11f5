-- ===== src/Poll/Tests.antt =====
-- The backend on epoll (src/epoll.c) over a table of registrations.
use libevlite.Base.{
  ℕ, true, false, ◌||◌, Option, none, some, List, [], ◌∷◌, ◌==◌, if◌then◌else◌, ◌≡◌, ◌≢◌, refl, sym,
  ap, subst, arith, assign,
}
use libevlite.Base.Int.{pos, negsuc}
use libevlite.Event.Defs.{Event, EventSet, no_mask}
use libevlite.Poll.Kernel.{
  CtlOp, ctl_add, ctl_mod, ctl_del, CtlError, enoent, eexist, Interest, Epoll, IsEpoll,
}
use libevlite.Poll.Defs.{no_pair, Epoller, joined, epoll_add, epoll_del}
use libevlite.Poll.Add.{IsPoller, Changed, epoll_add_lem}
use libevlite.Poll.Dispatch.{Ready, events, epoll_dispatch}
use libevlite.Poll.Active.{is_active, reported, epoll_dispatch_lem}
use libevlite.Poll.Del.{epoll_del_lem}

abbrev Registry : Type 0
Registry = ℕ → Option Interest

answer : CtlOp → Option Interest → Registry → ℕ → Interest → Option CtlError × Registry
answer ctl_add none s fd m = (none, assign s fd (some m))
answer ctl_add (some old) s fd m = (some eexist, s)
answer ctl_mod none s fd m = (some enoent, s)
answer ctl_mod (some old) s fd m = (none, assign s fd (some m))
answer ctl_del none s fd m = (some enoent, s)
answer ctl_del (some old) s fd m = (none, assign s fd none)

abbrev registry : Epoll Registry
registry = record { ctl = λ s op fd m. answer op (s fd) s fd m; interest = λ s fd. s fd }

assign_self : (s : Registry) (fd : ℕ) (m : Option Interest) → assign s fd m fd ≡ m
assign_self s fd m =
    let hit : (fd == fd) ≡ true = ground arith in ap (λ c. if c then m else s fd) hit

assign_ne : (s : Registry) (fd fd' : ℕ) (m : Option Interest) → fd ≢ fd' → assign s fd m fd' ≡ s fd'
assign_ne s fd fd' m n =
    let miss : (fd == fd') ≡ false = ground arith in ap (λ c. if c then m else s fd') miss

answer_others :
    (op : CtlOp) (o : Option Interest) (s : Registry) (fd fd' : ℕ) (m : Interest)
    → fd ≢ fd'
    → (answer op o s fd m).1 fd' ≡ s fd'
unfolding answer
answer_others ctl_add none s fd fd' m n = assign_ne s fd fd' (some m) n
answer_others ctl_add (some old) s fd fd' m n = refl
answer_others ctl_mod none s fd fd' m n = refl
answer_others ctl_mod (some old) s fd fd' m n = assign_ne s fd fd' (some m) n
answer_others ctl_del none s fd fd' m n = refl
answer_others ctl_del (some old) s fd fd' m n = assign_ne s fd fd' none n

registry-IsEpoll : IsEpoll registry
unfolding answer
registry-IsEpoll = record {
  add_new = λ s fd m e.
      subst (λ o. ((answer ctl_add o s fd m).0 ≡ none) × ((answer ctl_add o s fd m).1 fd ≡ some m))
        (sym e) (refl, assign_self s fd (some m));
  add_known = λ s fd m old e.
      subst
        (λ o.
          ((answer ctl_add o s fd m).0 ≡ some eexist) × ((answer ctl_add o s fd m).1 fd ≡ some old))
        (sym e) (refl, e);
  mod_new = λ s fd m e.
      subst
        (λ o. ((answer ctl_mod o s fd m).0 ≡ some enoent) × ((answer ctl_mod o s fd m).1 fd ≡ none))
        (sym e) (refl, e);
  mod_known = λ s fd m old e.
      subst (λ o. ((answer ctl_mod o s fd m).0 ≡ none) × ((answer ctl_mod o s fd m).1 fd ≡ some m))
        (sym e) (refl, assign_self s fd (some m));
  del_known = λ s fd m old e.
      subst (λ o. ((answer ctl_del o s fd m).0 ≡ none) × ((answer ctl_del o s fd m).1 fd ≡ none))
        (sym e) (refl, assign_self s fd none);
  others = λ s op fd fd' m n. answer_others op (s fd) s fd fd' m n;
}

-- An event that waits for reading on descriptor 5.
abbrev reader : Event
reader = record {
  fd = pos 5;
  events = record no_mask { ev_read = true };
  status = record {
    inserted = false;
    timer = false;
    active = false;
    internal = false;
    init = true;
    other = false;
  };
  results = no_mask;
  timer_msecs = negsuc 0;
  timer_index = negsuc 0;
  timer_stepcnt = negsuc 0;
}

abbrev two_pairs : Epoller Registry
two_pairs = record {
  npairs = 2;
  evpairs = no_pair ∷ record { evread = some 8; evwrite = some 9 } ∷ [];
  nevents = 2;
  kernel = λ fd. if fd == 1 then some (record { epollin = true; epollout = true }) else none;
}

two_pairs-IsPoller : IsPoller two_pairs
two_pairs-IsPoller = record { counted = refl; some_pairs = omega arith }

epoll_add_lem_example :
    (b' : Epoller Registry) × (epoll_add registry true two_pairs 7 reader ≡ some (pos 0, b'))
    × IsPoller b'
    × Changed registry two_pairs 5 (joined no_pair 7 reader) b'
epoll_add_lem_example =
    epoll_add_lem registry registry-IsEpoll two_pairs 5 7 reader two_pairs-IsPoller refl refl
      (omega arith)

abbrev reader_of_one : Event
reader_of_one = record reader { fd = pos 1 }

epoll_del_lem_example :
    (b' : Epoller Registry) × (epoll_del registry two_pairs reader_of_one ≡ some (pos 0, b'))
    × IsPoller b'
    × Changed registry two_pairs 1 (record { evread = none; evwrite = some 9 }) b'
epoll_del_lem_example =
    epoll_del_lem registry registry-IsEpoll two_pairs 1 reader_of_one two_pairs-IsPoller refl refl
      (omega arith) refl refl

-- The descriptor of the second pair is ready for writing.
abbrev one_ready : List Ready
one_ready = record { fd = pos 1; hup_or_err = false; in_or_pri = false; out = true } ∷ []

abbrev idle_set : EventSet (Unit {0})
idle_set = record {
  timer_precision = pos 10;
  expire_time = pos 0;
  cache_current = pos 0;
  core_timer = record {
    event_count = 0;
    bucket_count = 4;
    max_precision = 10;
    dispatch_refer = 2;
    bucket_array = [];
  };
  evsets = tt;
  eventlist = [];
  activelist = [];
  stored = λ e. reader;
}

epoll_dispatch_lem_example :
    let (rc, s', b') =
      epoll_dispatch registry true (λ tv. events one_ready) idle_set two_pairs (pos 9000000) in
    (rc ≡ pos 1)
    × (is_active s' 9 ≡ (is_active idle_set 9 || reported 2 two_pairs.evpairs one_ready 9))
    × (b'.evpairs ≡ two_pairs.evpairs)
epoll_dispatch_lem_example =
    epoll_dispatch_lem registry true (λ tv. events one_ready) idle_set two_pairs (pos 9000000)
      one_ready 9 refl

writer_reported : reported 2 two_pairs.evpairs one_ready 9 ≡ true
unfolding reported
writer_reported = refl

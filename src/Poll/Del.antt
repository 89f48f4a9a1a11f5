-- ===== src/Poll/Del.antt =====
-- epoll_del() of src/epoll.c.
use libevlite.Base.{
  ℕ, ◌<◌, Bool, true, false, ◌||◌, ◌&&◌, not, Option, none, some, get_or, set, if◌then◌else◌, ◌≡◌,
  refl, sym, ap, ◌∙◌, subst, arith, leb, ◌⊎◌, inl, inr, length-set,
}
use libevlite.Base.Int.{ℤ, pos, negsuc}
use libevlite.Event.Defs.{Event}
use libevlite.Poll.Kernel.{CtlOp, ctl_mod, ctl_del, Interest, Epoll, IsEpoll}
use libevlite.Poll.Defs.{
  EventPair, no_pair, Epoller, is_some, keeps_write, keeps_read, ctl_answer, del_at, epoll_del,
  del_fd,
}
use libevlite.Poll.Pairs.{interest_of, spread}
use libevlite.Poll.Add.{IsPoller, IsIo, Changed, set_pair}

-- A pair without what an event waits for.
abbrev pub without : EventPair → Event → EventPair
without p ev = record {
  evread = if ev.events.ev_read then none else p.evread;
  evwrite = if ev.events.ev_write then none else p.evwrite;
}

-- What epoll_del() keeps of a pair, and what it asks of the kernel.
abbrev kept : Bool → Bool → Option ℕ → Option ℕ → EventPair
kept write read x y = record {
  evread = if read then x else none;
  evwrite = if write then y else none;
}

abbrev change : Bool → Bool → Bool → Bool → Interest
change write read r w =
    if write
    then record { epollin = false; epollout = true }
    else if read
    then record { epollin = true; epollout = false }
    else record { epollin = r; epollout = w }

-- A change leaves what is registered as the rest of the pair says, and a deletion leaves an empty pair.
plan :
    (x y : Option ℕ) (r w : Bool)
    → (r || w) ≡ true
    → (is_some x || is_some y) ≡ true
    → let write = not (r && w) && (r && is_some y) in
      let read = not (r && w) && (not write && (w && is_some x)) in
      let rest : EventPair = kept write read x y in
      let wanted : EventPair = record {
        evread = if r then none else x;
        evwrite = if w then none else y;
      } in
      (rest ≡ wanted)
      × ((((write || read) ≡ true) × (some (change write read r w) ≡ interest_of rest))
          ⊎ (((write || read) ≡ false) × (interest_of rest ≡ none)))
plan none none true true io known = ground arith
plan none none true false io known = ground arith
plan none none false true io known = ground arith
plan none none false false io known = ground arith
plan none (some b) true true io known = (refl, inr (refl, refl))
plan none (some b) true false io known = (refl, inl (refl, refl))
plan none (some b) false true io known = (refl, inr (refl, refl))
plan none (some b) false false io known = ground arith
plan (some a) none true true io known = (refl, inr (refl, refl))
plan (some a) none true false io known = (refl, inr (refl, refl))
plan (some a) none false true io known = (refl, inl (refl, refl))
plan (some a) none false false io known = ground arith
plan (some a) (some b) true true io known = (refl, inr (refl, refl))
plan (some a) (some b) true false io known = (refl, inl (refl, refl))
plan (some a) (some b) false true io known = (refl, inl (refl, refl))
plan (some a) (some b) false false io known = ground arith

module _ {K : Type 0} (k : Epoll K) (laws : IsEpoll k) where
  -- A deletion that works, from the state `b`.
  abbrev Deleted : Epoller K → ℕ → Event → ℤ × Epoller K → Type 0
  Deleted b fd ev r =
      (r.0 ≡ pos 0) × IsPoller r.1 × Changed k b fd (without (get_or b.evpairs fd no_pair) ev) r.1

  -- After a call that works, and leaves what the rest of the pair says.
  ctl-Deleted :
      (b : Epoller K) (fd : ℕ) (ev : Event) (rest : EventPair) (op : CtlOp) (m : Interest)
      → IsPoller b
      → fd < b.npairs
      → rest ≡ without (get_or b.evpairs fd no_pair) ev
      → (k.ctl b.kernel op fd m).0 ≡ none
      → k.interest (k.ctl b.kernel op fd m).1 fd ≡ interest_of rest
      → Deleted b fd ev (
        ctl_answer (k.ctl b.kernel op fd m).0,
        record b { kernel = (k.ctl b.kernel op fd m).1; evpairs = set b.evpairs fd rest },
      )
  unfolding ctl_answer
  ctl-Deleted b fd ev rest op m v lt e fine here =
      let s = (k.ctl b.kernel op fd m).1 in
      let count = v.counted in
      (
        ap ctl_answer fine,
        record { counted = length-set b.evpairs fd rest ∙ v.counted; some_pairs = v.some_pairs },
        subst (λ p. Changed k b fd p (record b { kernel = s; evpairs = set b.evpairs fd rest })) e
            (λ fd'. (
              set_pair b.evpairs fd fd' rest (omega arith),
              spread k laws b.kernel s fd (interest_of rest) here
                  (λ fd₂ n. laws.others b.kernel op fd fd₂ m n) fd',
            )),
      )

  del_at-Deleted :
      (b : Epoller K) (fd : ℕ) (ev : Event)
      → IsPoller b
      → fd < b.npairs
      → IsIo ev
      → let p = get_or b.evpairs fd no_pair in
        (is_some p.evread || is_some p.evwrite) ≡ true
        → k.interest b.kernel fd ≡ interest_of p
        → Deleted b fd ev (del_at k b fd ev)
  unfolding del_at
  del_at-Deleted b fd ev v lt io known synced =
      let p = get_or b.evpairs fd no_pair in
      let write = keeps_write p ev in
      let read = keeps_read p ev in
      let rest = kept write read p.evread p.evwrite in
      let m = change write read ev.events.ev_read ev.events.ev_write in
      let before =
        synced
        ∙ ap
            (λ c.
              if c
              then some (record { epollin = is_some p.evread; epollout = is_some p.evwrite })
              else none)
            known in
      let old : Interest = record { epollin = is_some p.evread; epollout = is_some p.evwrite } in
      let (e, way) = plan p.evread p.evwrite ev.events.ev_read ev.events.ev_write io known in
      let finish : Bool → ℤ × Epoller K = λ c.
        let r = k.ctl b.kernel (if c then ctl_mod else ctl_del) fd m in
        (ctl_answer r.0, record b { kernel = r.1; evpairs = set b.evpairs fd rest }) in
      elim way [
        | inl (keeps, asks) ↦
            let (fine, here) = laws.mod_known b.kernel fd m old before in
            subst (λ c. Deleted b fd ev (finish c)) (sym keeps)
              (ctl-Deleted b fd ev rest ctl_mod m v lt e fine (here ∙ asks))
        | inr (drops, empty) ↦
            let (fine, here) = laws.del_known b.kernel fd m old before in
            subst (λ c. Deleted b fd ev (finish c)) (sym drops)
              (ctl-Deleted b fd ev rest ctl_del m v lt e fine (here ∙ sym empty))
      ]

  -- epoll_del() of an event for reading or writing, on a descriptor whose pair is not empty and for which the
  -- system has registered what the pair says, works: the pair is left without what the event waits for, what is
  -- registered for the descriptor is what the rest of its pair says, nothing if it is empty, and the pairs and
  -- registrations of all other descriptors are as they were.
  pub epoll_del_lem :
      (b : Epoller K) (fd : ℕ) (ev : Event)
      → IsPoller b
      → IsIo ev
      → ev.fd ≡ pos fd
      → fd < b.npairs
      → let p = get_or b.evpairs fd no_pair in
        (is_some p.evread || is_some p.evwrite) ≡ true
        → k.interest b.kernel fd ≡ interest_of p
        → (b' : Epoller K) × (epoll_del k b ev ≡ some (pos 0, b'))
          × IsPoller b'
          × Changed k b fd (without p ev) b'
  unfolding epoll_del del_fd
  epoll_del_lem b fd ev v io at_fd lt known synced =
      let (fine, v', changed) = del_at-Deleted b fd ev v lt io known synced in
      let has : leb b.npairs fd ≡ false = ground arith in
      let choice : Bool → ℤ × Epoller K = λ c. if c then (negsuc 0, b) else del_at k b fd ev in
      let b' = (del_at k b fd ev).1 in
      (
        b',
        ap (λ z. del_fd k b z ev) at_fd
            ∙ ap (λ c. some (choice c)) has
            ∙ ap (λ rc. some (rc, b')) fine,
        v',
        changed,
      )

-- ===== src/Poll/Add.antt =====
-- epoll_add() of src/epoll.c.
use libevlite.Base.{
  ℕ, ◌-◌, ◌^◌, ◌<◌, Bool, true, false, ◌||◌, Option, none, some, List, ◌++◌, length, length-append,
  length-replicate, get_or, set, replicate, if◌then◌else◌, ◌≡◌, refl, sym, ap, ap₂, ◌∙◌, subst,
  arith, leb, ◌==◌, dec_lt, ℕ_discrete, length-set, get_or-set_self, get_or-set_ne,
}
use libevlite.Base.Int.{ℤ, pos}
use libevlite.Event.Defs.{Event}
use libevlite.Poll.Kernel.{ctl_add, ctl_mod, CtlError, Interest, Epoll, IsEpoll}
use libevlite.Poll.Defs.{
  EventPair, no_pair, Epoller, is_some, asked, joined, after_ctl, retry, add_at, add_inserted,
  epoll_insert, epoll_add, add_fd,
}
use libevlite.Poll.Pairs.{interest_of, pair-longer, widen_pairs_lem, Registered, retry-Registered}

-- The array has as many pairs as it says.
pub record IsPoller {K : Type 0} (b : Epoller K) : Type 0 where
  pub counted : length b.evpairs ≡ b.npairs
  pub some_pairs : 0 < b.npairs

-- An event for reading or writing.
abbrev pub IsIo : Event → Type 0
IsIo ev = (ev.events.ev_read || ev.events.ev_write) ≡ true

-- The pair and the registration of `fd` are new, those of all others are as they were.
abbrev pub Changed : {K : Type 0} → Epoll K → Epoller K → ℕ → EventPair → Epoller K → Type 0
Changed k b fd p b' =
    (fd' : ℕ)
    → (get_or b'.evpairs fd' no_pair ≡ (if fd == fd' then p else get_or b.evpairs fd' no_pair))
      × (k.interest b'.kernel fd' ≡ (if fd == fd' then interest_of p else k.interest b.kernel fd'))

pub set_pair :
    (pairs : List EventPair) (fd fd' : ℕ) (p : EventPair)
    → fd < length pairs
    → get_or (set pairs fd p) fd' no_pair ≡ (if fd == fd' then p else get_or pairs fd' no_pair)
set_pair pairs fd fd' p h = elim (ℕ_discrete fd fd') [
  | yes e ↦
      let hit : (fd == fd') ≡ true = ground arith in
      rw hit (
        subst (λ i. get_or (set pairs fd p) i no_pair ≡ p) e (get_or-set_self pairs fd p no_pair h))
  | no n ↦
      let miss : (fd == fd') ≡ false = ground arith in
      rw miss (get_or-set_ne pairs fd fd' p no_pair n)
]

is_some-if : (a : Bool) (e : ℕ) (r : Option ℕ) → is_some (if a then some e else r) ≡ is_some r || a
is_some-if true e none = refl
is_some-if true e (some x) = refl
is_some-if false e none = refl
is_some-if false e (some x) = refl

any_of : (x a y b : Bool) → (a || b) ≡ true → ((x || a) || (y || b)) ≡ true
any_of x a y b io = ground arith

-- The pair after an addition is what was asked of the kernel.
asked-joined :
    (p : EventPair) (e : ℕ) (ev : Event) → IsIo ev → some (asked p ev) ≡ interest_of (joined p e ev)
asked-joined p e ev io =
    let choice : Bool → Bool → Bool → Option Interest =
      λ c x y. if c then some (record { epollin = x; epollout = y }) else none in
    let known =
      any_of (is_some p.evread) ev.events.ev_read (is_some p.evwrite) ev.events.ev_write io in
    ap (λ c. choice c (asked p ev).epollin (asked p ev).epollout) (sym known)
    ∙ ap₂ (λ x y. choice (x || y) x y) (sym (is_some-if ev.events.ev_read e p.evread))
        (sym (is_some-if ev.events.ev_write e p.evwrite))

module _ {K : Type 0} (k : Epoll K) (laws : IsEpoll k) where
  -- An addition that works, from the state `b`.
  abbrev Added : Epoller K → ℕ → ℕ → Event → ℤ × Epoller K → Type 0
  Added b fd e ev r =
      (r.0 ≡ pos 0) × IsPoller r.1 × Changed k b fd (joined (get_or b.evpairs fd no_pair) e ev) r.1

  after_ctl-Added :
      (b : Epoller K) (fd e : ℕ) (ev : Event) (r : Option CtlError × K)
      → IsPoller b
      → fd < b.npairs
      → IsIo ev
      → Registered k laws b.kernel fd (asked (get_or b.evpairs fd no_pair) ev) r
      → Added b fd e ev (after_ctl k b fd (joined (get_or b.evpairs fd no_pair) e ev) r)
  unfolding after_ctl
  after_ctl-Added b fd e ev (some error, s) v lt io (fine, reg) = absurd (ground arith)
  after_ctl-Added b fd e ev (none, s) v lt io (fine, reg) =
      let p = joined (get_or b.evpairs fd no_pair) e ev in
      let count = v.counted in
      (
        refl,
        record { counted = length-set b.evpairs fd p ∙ v.counted; some_pairs = v.some_pairs },
        λ fd'. (
          set_pair b.evpairs fd fd' p (omega arith),
          reg fd'
              ∙ ap (λ m. if fd == fd' then m else k.interest b.kernel fd')
                  (asked-joined (get_or b.evpairs fd no_pair) e ev io),
        ),
      )

  add_at-Added :
      (b : Epoller K) (fd e : ℕ) (ev : Event)
      → IsPoller b
      → fd < b.npairs
      → IsIo ev
      → Added b fd e ev (add_at k b fd e ev)
  unfolding add_at
  add_at-Added b fd e ev v lt io =
      let p = get_or b.evpairs fd no_pair in
      let changes = is_some p.evread || is_some p.evwrite in
      let op = if changes then ctl_mod else ctl_add in
      after_ctl-Added b fd e ev (retry k op (k.ctl b.kernel op fd (asked p ev)) fd (asked p ev)) v
        lt io (retry-Registered k laws b.kernel changes fd (asked p ev))

  -- The array after realloc() and memset().
  abbrev longer : Epoller K → ℕ → Epoller K
  longer b n = record b { npairs = n; evpairs = b.evpairs ++ replicate (n - b.npairs) no_pair }

  epoll_insert-longer :
      (b : Epoller K) (fd : ℕ)
      → IsPoller b
      → fd < 2 ^ 30
      → (n : ℕ) × (epoll_insert k true b fd ≡ some (pos 0, longer b n))
        × (fd < n)
        × IsPoller (longer b n)
  unfolding epoll_insert
  epoll_insert-longer b fd v small =
      let positive = v.some_pairs in
      let count = v.counted in
      let (n, e, le, lt) = widen_pairs_lem 31 fd b.npairs positive small (omega arith) in
      let answer : Option ℕ → Option (ℤ × Epoller K) =
        λ o. elim o [ none ↦ none | some m ↦ some (pos 0, longer b m) ] in
      (
        n,
        ap answer e,
        lt,
        record {
          counted = omega (
            arith,
            length-append b.evpairs (replicate (n - b.npairs) no_pair),
            length-replicate (n - b.npairs) no_pair,
          );
          some_pairs = omega arith;
        },
      )

  -- The longer array has the same pairs.
  Changed-longer :
      (b b' : Epoller K) (n fd e : ℕ) (ev : Event)
      → Changed k (longer b n) fd (joined (get_or (longer b n).evpairs fd no_pair) e ev) b'
      → Changed k b fd (joined (get_or b.evpairs fd no_pair) e ev) b'
  Changed-longer b b' n fd e ev c fd' =
      let same = pair-longer b.evpairs (n - b.npairs) in
      let p = joined (get_or b.evpairs fd no_pair) e ev in
      let (pair, reg) = subst (λ q. Changed k (longer b n) fd (joined q e ev) b') (same fd) c fd' in
      (pair ∙ ap (λ q. if fd == fd' then p else q) (same fd'), reg)

  -- epoll_add() of an event for reading or writing, on a descriptor below 2 ^ 30 and with the memory for its
  -- pair, works, whatever the system has registered for the descriptor: the descriptor may have been closed and
  -- opened again, or be registered by a duplicate. Its pair then holds the event for what it waits for, what is
  -- registered for it is what its pair says, and the pairs and registrations of all other descriptors are as they
  -- were.
  pub epoll_add_lem :
      (b : Epoller K) (fd e : ℕ) (ev : Event)
      → IsPoller b
      → IsIo ev
      → ev.fd ≡ pos fd
      → fd < 2 ^ 30
      → (b' : Epoller K) × (epoll_add k true b e ev ≡ some (pos 0, b'))
        × IsPoller b'
        × Changed k b fd (joined (get_or b.evpairs fd no_pair) e ev) b'
  unfolding epoll_add add_fd add_inserted
  epoll_add_lem b fd e ev v io at_fd small =
      let run = ap (λ z. add_fd k true b z e ev) at_fd in
      let choice : Bool → Option (ℤ × Epoller K) = λ c.
        if c
        then add_inserted k (epoll_insert k true b fd) fd e ev
        else some (add_at k b fd e ev) in
      elim (dec_lt fd b.npairs) [
        | yes inside ↦
            let has : leb b.npairs fd ≡ false = ground arith in
            let (fine, v', changed) = add_at-Added b fd e ev v inside io in
            (
              (add_at k b fd e ev).1,
              run ∙ ap choice has ∙ ap (λ rc. some (rc, (add_at k b fd e ev).1)) fine,
              v',
              changed,
            )
        | no outside ↦
            let lacks : leb b.npairs fd ≡ true = ground arith in
            let (n, inserted, lt, v₁) = epoll_insert-longer b fd v small in
            let (fine, v', changed) = add_at-Added (longer b n) fd e ev v₁ lt io in
            let b' = (add_at k (longer b n) fd e ev).1 in
            (
              b',
              run
                  ∙ ap choice lacks
                  ∙ ap (λ o. add_inserted k o fd e ev) inserted
                  ∙ ap (λ rc. some (rc, b')) fine,
              v',
              Changed-longer b b' n fd e ev changed,
            )
      ]

-- ===== src/Poll/Active.antt =====
-- Which events epoll_dispatch() (src/epoll.c) makes active.
use libevlite.Base.{
  ℕ, Bool, true, false, ◌||◌, Option, none, some, List, [], ◌∷◌, length, leb, ◌==◌, if◌then◌else◌,
  get_or, ◌≡◌, refl, sym, ap, ◌∙◌, ap₂, ◌&&◌, subst, assign, Bool-cases, inl, inr,
}
use libevlite.Base.Int.{ℤ, pos, negsuc}
use libevlite.Event.Defs.{Event, EventSet, Mask, no_mask, mask_or, with_event, inserted_last}
use libevlite.Event.Wheel.{event_active}
use libevlite.Poll.Kernel.{Epoll}
use libevlite.Poll.Defs.{EventPair, no_pair, Epoller, epoll_expand}
use libevlite.Poll.Dispatch.{
  Ready, Waited, events, clamp, ready_read, ready_write, activate, deliver_pair, deliver_fd,
  deliver, after_wait, epoll_dispatch,
}

-- Whether an event is the one that is given.
abbrev pub is_this : Option ℕ → ℕ → Bool
is_this none e = false
is_this (some x) e = x == e

-- Whether what is reported concerns the event: its descriptor has a pair, which holds the event for reading
-- and input (or urgent data) is reported, or for writing and room is reported, or for either and a hang-up or an
-- error is reported.
unfoldable pub concerns : ℕ → List EventPair → ℤ → Ready → ℕ → Bool
concerns npairs pairs (negsuc n) r e = false
concerns npairs pairs (pos fd) r e =
    let p = get_or pairs fd no_pair in
    if leb npairs fd
    then false
    else (is_this p.evread e && (r.in_or_pri || r.hup_or_err))
      || (is_this p.evwrite e && (r.out || r.hup_or_err))

unfoldable pub reported : ℕ → List EventPair → List Ready → ℕ → Bool
unfolding concerns
reported npairs pairs [] e = false
reported npairs pairs (r ∷ rs) e = concerns npairs pairs r.fd r e || reported npairs pairs rs e

and_true : (b : Bool) → b ≡ (b && true)
and_true true = refl
and_true false = refl

and_false : (b : Bool) → false ≡ (b && false)
and_false true = refl
and_false false = refl

-- An event that is there if something is reported.
this_if :
    (hup more : Bool) (o : Option ℕ) (e : ℕ)
    → is_this (if hup || more then o else none) e ≡ (is_this o e && (more || hup))
this_if true true o e = and_true (is_this o e)
this_if true false o e = and_true (is_this o e)
this_if false true o e = and_true (is_this o e)
this_if false false o e = and_false (is_this o e)

or_false : (b : Bool) → b ≡ (b || false)
or_false true = refl
or_false false = refl

or_assoc : (a b c : Bool) → ((a || b) || c) ≡ (a || (b || c))
or_assoc true b c = refl
or_assoc false b c = refl

or_true : (b : Bool) → true ≡ (b || true)
or_true true = refl
or_true false = refl

assign-active :
    (f : ℕ → Event) (x : ℕ) (v : Event) (e : ℕ)
    → v.status.active ≡ true
    → (assign f x v e).status.active ≡ ((f e).status.active || x == e)
assign-active f x v e on = elim (Bool-cases (x == e)) [
  | inl hit ↦ rw hit (on ∙ or_true (f e).status.active)
  | inr miss ↦ rw miss (or_false (f e).status.active)
]

same_pairs :
    {K : Type 0} (k : Epoll K) (allocated full : Bool) (b : Epoller K)
    → (if full then (epoll_expand k allocated b).1 else b).evpairs ≡ b.evpairs
unfolding epoll_expand
same_pairs k true true b = refl
same_pairs k false true b = refl
same_pairs k true false b = refl
same_pairs k false false b = refl

module _ {B : Type 0} where
  abbrev pub is_active : EventSet B → ℕ → Bool
  is_active s e = (s.stored e).status.active

  -- The set that event_active() leaves.
  step_of :
      (s : EventSet B) (x : ℕ) (res : Mask)
      → (if (s.stored x).status.active
          then with_event s x (record (s.stored x) { results = mask_or (s.stored x).results res })
          else record (with_event s x (record (s.stored x) {
            results = res;
            status = record (s.stored x).status { active = true };
          })) { activelist = inserted_last x s.activelist })
        ≡ (event_active s x res).1
  unfolding event_active
  step_of s x res = elim (Bool-cases (s.stored x).status.active) [
    | inl was ↦ rw was refl
    | inr not_yet ↦ rw not_yet refl
  ]

  event_active-active :
      (s : EventSet B) (x : ℕ) (res : Mask) (e : ℕ)
      → is_active (event_active s x res).1 e ≡ (is_active s e || x == e)
  unfolding event_active
  event_active-active s x res e =
      let ev = s.stored x in
      let more : Event = record ev { results = mask_or ev.results res } in
      let fresh : Event = record ev {
        results = res;
        status = record ev.status { active = true };
      } in
      let choice : Bool → EventSet B = λ c.
        if c
        then with_event s x more
        else record (with_event s x fresh) { activelist = inserted_last x s.activelist } in
      let Good : EventSet B → Type 0 = λ s'. is_active s' e ≡ (is_active s e || x == e) in
      subst Good (step_of s x res) (elim (Bool-cases ev.status.active) [
        | inl was ↦ subst (λ c. Good (choice c)) (sym was) (assign-active s.stored x more e was)
        | inr not_yet ↦
            subst (λ c. Good (choice c)) (sym not_yet) (assign-active s.stored x fresh e refl)
      ])

  activate-active :
      (s : EventSet B) (o : Option ℕ) (res : Mask) (e : ℕ)
      → is_active (activate s o res) e ≡ (is_active s e || is_this o e)
  unfolding activate
  activate-active s none res e = or_false (is_active s e)
  activate-active s (some x) res e = event_active-active s x res e

  deliver_fd-active :
      (npairs : ℕ) (pairs : List EventPair) (s : EventSet B) (fd : ℤ) (r : Ready) (e : ℕ)
      → is_active (deliver_fd npairs pairs s fd r) e
        ≡ (is_active s e || concerns npairs pairs fd r e)
  unfolding deliver_fd deliver_pair concerns
  deliver_fd-active npairs pairs s (negsuc n) r e = or_false (is_active s e)
  deliver_fd-active npairs pairs s (pos fd) r e =
      let p = get_or pairs fd no_pair in
      let res₁ : Mask = record no_mask { ev_read = true } in
      let res₂ : Mask = record no_mask { ev_write = true } in
      let first = activate s (ready_read p r) res₁ in
      let both =
        activate-active first (ready_write p r) res₂ e
        ∙ ap (λ b. b || is_this (ready_write p r) e) (activate-active s (ready_read p r) res₁ e)
        ∙ or_assoc (is_active s e) (is_this (ready_read p r) e) (is_this (ready_write p r) e)
        ∙ ap₂ (λ c d. is_active s e || (c || d)) (this_if r.hup_or_err r.in_or_pri p.evread e)
            (this_if r.hup_or_err r.out p.evwrite e) in
      elim (Bool-cases (leb npairs fd)) [
        | inl out_of ↦ rw out_of (or_false (is_active s e))
        | inr inside ↦ rw inside both
      ]

  deliver-active :
      (npairs : ℕ) (pairs : List EventPair) (s : EventSet B) (rs : List Ready) (e : ℕ)
      → is_active (deliver npairs pairs s rs) e ≡ (is_active s e || reported npairs pairs rs e)
  unfolding deliver reported
  deliver-active npairs pairs s [] e = or_false (is_active s e)
  deliver-active npairs pairs s (r ∷ rs) e =
      deliver-active npairs pairs (deliver_fd npairs pairs s r.fd r) rs e
      ∙ ap (λ b. b || reported npairs pairs rs e) (deliver_fd-active npairs pairs s r.fd r e)
      ∙ or_assoc (is_active s e) (concerns npairs pairs r.fd r e) (reported npairs pairs rs e)

  -- epoll_dispatch() that gets the events `rs` from epoll_wait() makes exactly those events active that were
  -- active before, or that the pair of a reported descriptor holds for what is reported: reading, writing, or
  -- both when the connection is broken. It answers the number of reports.
  pub epoll_dispatch_lem :
      {K : Type 0} (k : Epoll K) (allocated : Bool) (wait : ℤ → Waited) (s : EventSet B)
      (b : Epoller K) (tv : ℤ) (rs : List Ready) (e : ℕ)
      → wait (clamp tv) ≡ events rs
      → let (rc, s', b') = epoll_dispatch k allocated wait s b tv in
        (rc ≡ pos (length rs))
        × (is_active s' e ≡ (is_active s e || reported b.npairs b.evpairs rs e))
        × (b'.evpairs ≡ b.evpairs)
  unfolding epoll_dispatch after_wait epoll_expand
  epoll_dispatch_lem {K = K} k allocated wait s b tv rs e waited =
      let Good : ℤ × EventSet B × Epoller K → Type 0 = λ (rc, s', b').
        (rc ≡ pos (length rs))
        × (is_active s' e ≡ (is_active s e || reported b.npairs b.evpairs rs e))
        × (b'.evpairs ≡ b.evpairs) in
      subst (λ w. Good (after_wait k allocated s b w)) (sym waited)
        (
          refl,
          deliver-active b.npairs b.evpairs s rs e,
          same_pairs k allocated (length rs == b.nevents) b,
        )

-- ===== src/Channel/Drain.antt =====
-- channel_transmit() of src/channel.c on a descriptor that never blocks or fails.
use libevlite.Base.{
  ℕ, zero, suc, ◌+◌, ◌-◌, ◌^◌, ◌<◌, true, false, Option, some, List, [], ◌∷◌, ◌++◌, length, take,
  drop, ltb, Bool-cases, ◌≡◌, refl, sym, ap, ◌∙◌, subst, arith, inl, inr, append-nil, length-append,
  length-drop, length-take,
}
use libevlite.Base.Int.{ℤ, pos}
use libevlite.Base.Words.{add64}
use libevlite.Channel.Defs.{
  Store, Sender, Answer, wrote, content, gather, concat, advance, amount, after_write,
  transmit_loop, channel_transmit, is_empty,
}
use libevlite.Channel.Store.{IsStore, queued, IsOpen}
use libevlite.Channel.Transmit.{pending, IsSending, TakesOffered, pending_empty, advance-Advanced}

-- writev() takes something when there is something.
abbrev pub TakesSome : (ℕ → List (List ℕ) → Answer) → Type 0
TakesSome writev =
    (t : ℕ) (iov : List (List ℕ))
    → 0 < length (concat iov)
    → (n : ℕ) × (writev t iov ≡ wrote (suc n))

gather_some :
    (stored : Store) (room offset a : ℕ) (q : List ℕ)
    → IsStore stored
    → offset < (stored a).length
    → 0 < length (concat (gather stored (suc room) offset (a ∷ q)))
unfolding gather
gather_some stored room offset a q valid h =
    let m = stored a in
    let hit : ltb offset m.length ≡ true = ground arith in
    let whole = valid a in
    let rest = gather stored room 0 q in
    let piece = take (m.length - offset) (drop offset (content m)) in
    rw hit omega (
      arith,
      length-append piece (concat rest),
      length-take (m.length - offset) (drop offset (content m)),
      length-drop offset (content m),
    )

-- All of the queue goes out.
abbrev pub Drained : Sender → ℕ → Option (ℤ × Sender) → Type 0
Drained s total o =
    (s' : Sender) × (o ≡ some (pos (total + length (pending s)), s'))
    × (s'.sendqueue ≡ [])
    × (s'.wire ≡ s.wire ++ pending s)

nothing_left :
    (s : Sender)
    → IsSending s
    → (total : ℕ) → is_empty s.sendqueue ≡ true
    → Drained s total (some (pos total, s))
nothing_left s v total none_left =
    let (e, gone) = pending_empty s v none_left in
    (
      s,
      ap (λ n. some (pos n, s)) (omega (arith, ap length gone)),
      e,
      sym (append-nil s.wire) ∙ ap (λ r. s.wire ++ r) (sym gone),
    )

module _ (room : ℕ) (writev : ℕ → List (List ℕ) → Answer) (takes : TakesOffered writev)
    (moves : TakesSome writev) where
  offered :
      (s : Sender) (q : List ℕ)
      → s.sendqueue ≡ q
      → is_empty q ≡ false
      → IsOpen s.stored s.msgoffset q
      → IsSending s
      → 0 < length (concat (gather s.stored (suc room) s.msgoffset q))
  offered s [] e h o v = ground arith
  offered s (a ∷ q) e h o v = gather_some s.stored room s.msgoffset a q v.whole o

  transmit_loop-Drained :
      (fuel t total : ℕ) (s : Sender)
      → IsSending s
      → IsOpen s.stored s.msgoffset s.sendqueue
      → length (pending s) < fuel
      → total + length (pending s) < 2 ^ 63
      → Drained s total (transmit_loop (suc room) writev fuel t total s)
  unfolding transmit_loop after_write
  transmit_loop-Drained zero t total s v o f b = absurd (omega arith)
  transmit_loop-Drained (suc fuel) t total s v o f b =
      let iov = gather s.stored (suc room) s.msgoffset s.sendqueue in
      elim (Bool-cases (is_empty s.sendqueue)) [
        | inl none_left ↦ rw none_left (nothing_left s v total none_left)
        | inr more ↦
            let (n, e) = moves t iov (offered s s.sendqueue refl more o v) in
            let s' = advance s iov (suc n) in
            let (v', stream, grown, moved, o') =
              advance-Advanced s (suc room) (suc n) v (takes t iov (suc n) e) in
            let plain : add64 total (suc n) ≡ total + suc n = omega arith in
            let (last, runs, empty, wire) =
              transmit_loop-Drained fuel (suc t) (total + suc n) s' v' o' (omega arith)
                (omega arith) in
            rw more (
              subst
                (λ a. Drained s total (
                  after_write a total s (
                    transmit_loop (suc room) writev fuel (suc t) (add64 total (amount a))
                      (advance s iov (amount a)))))
                (sym e)
                (
                  last,
                  ap (λ k. transmit_loop (suc room) writev fuel (suc t) k s') plain
                      ∙ runs
                      ∙ ap (λ k. some (pos k, last)) (omega arith),
                  empty,
                  wire ∙ stream,
                ))
      ]

  -- On a descriptor that takes at least one byte of what it is offered, and never more, channel_transmit()
  -- sends everything: the queue ends empty, all that was to be sent has been sent in order, and the answer
  -- is its length. The offset starts inside the first message, and the vector has at least one place.
  pub channel_transmit-drains :
      (fuel : ℕ) (s : Sender)
      → IsSending s
      → IsOpen s.stored s.msgoffset s.sendqueue
      → length (pending s) < fuel
      → Drained s 0 (channel_transmit (suc room) writev fuel s)
  unfolding channel_transmit
  channel_transmit-drains fuel s v o f =
      let left = length-drop s.msgoffset (queued s.stored s.sendqueue) in
      let small = v.small in transmit_loop-Drained fuel 0 0 s v o f (omega arith)

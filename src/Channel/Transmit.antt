-- ===== src/Channel/Transmit.antt =====
-- channel_transmit() of src/channel.c as a stream of bytes. What writev() promises is a hypothesis.
use libevlite.Base.{
  ℕ, zero, suc, ◌+◌, ◌^◌, ◌≤◌, ◌<◌, true, Option, some, List, [], ◌∷◌, ◌++◌, length, take, drop,
  Bool-cases, ◌≡◌, refl, sym, ap, ap₂, ◌∙◌, arith, ◌⊎◌, inl, inr, append_assoc, length-append,
  length-drop, length-take, take-append_short, take-append-drop, drop-drop, drop_all,
}
use libevlite.Base.Int.{ℤ, pos, negsuc}
use libevlite.Base.Words.{add64}
use libevlite.Channel.Defs.{
  Sender, Answer, wrote, would_block, interrupted, failed, gather, concat, advance, amount,
  after_write, transmit_loop, channel_transmit, is_empty,
}
use libevlite.Channel.Store.{IsStore, queued, gather_lem, pop_sent-Kept, IsOpen}

-- What is in the queue and not yet sent.
abbrev pub pending : Sender → List ℕ
pending s = drop s.msgoffset (queued s.stored s.sendqueue)

pub record IsSending (s : Sender) : Type 0 where
  pub whole : IsStore s.stored
  pub covered : s.msgoffset ≤ length (queued s.stored s.sendqueue)
  pub small : length (queued s.stored s.sendqueue) < 2 ^ 63

no_more : (q : List ℕ) → is_empty q ≡ true → q ≡ []
no_more [] e = refl
no_more (a ∷ q) e = ground arith

pub pending_empty :
    (s : Sender) → IsSending s → is_empty s.sendqueue ≡ true → (s.sendqueue ≡ []) × (pending s ≡ [])
unfolding queued
pending_empty s v e =
    let none_left = no_more s.sendqueue e in
    (
      none_left,
      ap (λ q. drop s.msgoffset (queued s.stored q)) none_left
          ∙ drop_all s.msgoffset [] (omega arith),
    )

-- writev() takes no more than it is given.
abbrev pub TakesOffered : (ℕ → List (List ℕ) → Answer) → Type 0
TakesOffered writev =
    (t : ℕ) (iov : List (List ℕ)) (n : ℕ) → writev t iov ≡ wrote n → n ≤ length (concat iov)

-- A call of writev() answered that it took nothing, or failed other than by EAGAIN or EWOULDBLOCK.
abbrev pub TookNone : (ℕ → List (List ℕ) → Answer) → Type 0
TookNone writev = (t : ℕ) × (iov : List (List ℕ)) × (writev t iov ≡ wrote 0)

abbrev pub HasFailed : (ℕ → List (List ℕ) → Answer) → Type 0
HasFailed writev =
    (t : ℕ) × (iov : List (List ℕ)) × ((writev t iov ≡ interrupted) ⊎ (writev t iov ≡ failed))

-- From `s`, `s'` follows with the same stream of bytes, `written` of them moved to the descriptor; the
-- answer is the count, unless a call of writev() took nothing or failed.
pub record Transmitted (writev : ℕ → List (List ℕ) → Answer) (s : Sender) (total : ℕ) (rc : ℤ)
    (s' : Sender) : Type 0 where
  pub valid : IsSending s'
  pub stream : s'.wire ++ pending s' ≡ s.wire ++ pending s
  pub written : ℕ
  pub grown : length s'.wire ≡ length s.wire + written
  pub answer :
      (rc ≡ pos (total + written))
      ⊎ (((rc ≡ pos 0) × TookNone writev) ⊎ ((rc ≡ negsuc 0) × HasFailed writev))

-- One round: the vector is taken up to `n` bytes.
abbrev Advanced : Sender → Sender → ℕ → Type 0
Advanced s s' n =
    IsSending s'
    × (s'.wire ++ pending s' ≡ s.wire ++ pending s)
    × (length s'.wire ≡ length s.wire + n)
    × (n + length (pending s') ≡ length (pending s))
    × IsOpen s'.stored s'.msgoffset s'.sendqueue

pub advance-Advanced :
    (s : Sender) (room n : ℕ)
    → IsSending s
    → n ≤ length (concat (gather s.stored room s.msgoffset s.sendqueue))
    → Advanced s (advance s (gather s.stored room s.msgoffset s.sendqueue) n) n
unfolding advance
advance-Advanced s room n v h =
    let iov = concat (gather s.stored room s.msgoffset s.sendqueue) in
    let all = queued s.stored s.sendqueue in
    let (rest, e) = gather_lem s.stored v.whole s.sendqueue room s.msgoffset in
    let size : length iov + length rest ≡ length (pending s) =
      sym (length-append iov rest) ∙ ap length e in
    let left = length-drop s.msgoffset all in
    let covered = v.covered in
    let small = v.small in
    let plain : add64 s.msgoffset n ≡ s.msgoffset + n = omega arith in
    let k = pop_sent-Kept s.stored s.sendqueue (add64 s.msgoffset n) v.whole (omega arith) in
    let shorter = k.shorter in
    let head : take n iov ≡ take n (pending s) =
      sym (take-append_short n iov rest h) ∙ ap (take n) e in
    let tail =
      k.pending
      ∙ ap (λ i. drop i all) plain
      ∙ sym (drop-drop n s.msgoffset (s.msgoffset + n) all (omega arith)) in
    (
      record { whole = k.valid; covered = k.covered; small = omega arith },
      ap₂ (λ x y. (s.wire ++ x) ++ y) head tail
          ∙ append_assoc s.wire (take n (pending s)) (drop n (pending s))
          ∙ ap (λ r. s.wire ++ r) (take-append-drop n (pending s)),
      omega (arith, length-append s.wire (take n iov), length-take n iov),
      omega (arith, ap length tail, length-drop n (pending s)),
      k.opened,
    )

module _ (iov_max : ℕ) (writev : ℕ → List (List ℕ) → Answer) (takes : TakesOffered writev) where
  abbrev pub Outcome : Sender → ℕ → Option (ℤ × Sender) → Type 0
  Outcome s total o =
      (rc : ℤ) × (s' : Sender) × (o ≡ some (rc, s')) × Transmitted writev s total rc s'

  abbrev iov_of : Sender → List (List ℕ)
  iov_of s = gather s.stored iov_max s.msgoffset s.sendqueue

  stay :
      (s : Sender) (total : ℕ) (rc : ℤ)
      → IsSending s
      → (rc ≡ pos (total + 0))
        ⊎ (((rc ≡ pos 0) × TookNone writev) ⊎ ((rc ≡ negsuc 0) × HasFailed writev))
      → Outcome s total (some (rc, s))
  stay s total rc v a = (
    rc,
    s,
    refl,
    record { valid = v; stream = refl; written = 0; grown = omega arith; answer = a },
  )

  -- The end of a round, if the next rounds are right.
  after_write-Outcome :
      (a : Answer) (fuel t total : ℕ) (s : Sender)
      → IsSending s
      → writev t (gather s.stored iov_max s.msgoffset s.sendqueue) ≡ a
      → total + length (pending s) < 2 ^ 63
      → ((n : ℕ) (s' : Sender)
          → 0 < n
          → IsSending s'
          → n + length (pending s') ≡ length (pending s)
          → Outcome s' (total + n) (transmit_loop iov_max writev fuel (suc t) (total + n) s'))
      → Outcome s total (
          after_write a total s (
            transmit_loop iov_max writev fuel
              (suc t)
              (add64 total (amount a))
              (advance s (gather s.stored iov_max s.msgoffset s.sendqueue) (amount a))))
  unfolding after_write
  after_write-Outcome would_block fuel t total s v e b next =
      stay s total (pos total) v (inl (ap pos (omega arith)))
  after_write-Outcome interrupted fuel t total s v e b next =
      stay s total (negsuc 0) v (inr (inr (refl, (t, iov_of s, inl e))))
  after_write-Outcome failed fuel t total s v e b next =
      stay s total (negsuc 0) v (inr (inr (refl, (t, iov_of s, inr e))))
  after_write-Outcome (wrote zero) fuel t total s v e b next =
      stay s total (pos 0) v (inr (inl (refl, (t, iov_of s, e))))
  after_write-Outcome (wrote (suc n)) fuel t total s v e b next =
      let (valid, stream, grown, moved, _) =
        advance-Advanced s iov_max (suc n) v
          (takes t (gather s.stored iov_max s.msgoffset s.sendqueue) (suc n) e) in
      let s' = advance s (gather s.stored iov_max s.msgoffset s.sendqueue) (suc n) in
      let plain : add64 total (suc n) ≡ total + suc n = omega arith in
      let (rc, last, runs, tr) = next (suc n) s' (omega arith) valid moved in
      let grown_on = tr.grown in
      (
        rc,
        last,
        ap (λ k. transmit_loop iov_max writev fuel (suc t) k s') plain ∙ runs,
        record {
          valid = tr.valid;
          stream = tr.stream ∙ stream;
          written = suc n + tr.written;
          grown = omega arith;
          answer = elim tr.answer [ inl e' ↦ inl (e' ∙ ap pos (omega arith)) | inr e' ↦ inr e' ];
        },
      )

  transmit_loop-Outcome :
      (fuel t total : ℕ) (s : Sender)
      → IsSending s
      → length (pending s) < fuel
      → total + length (pending s) < 2 ^ 63
      → Outcome s total (transmit_loop iov_max writev fuel t total s)
  unfolding transmit_loop
  transmit_loop-Outcome zero t total s v f b = absurd (omega arith)
  transmit_loop-Outcome (suc fuel) t total s v f b =
      let round =
        after_write-Outcome (writev t (gather s.stored iov_max s.msgoffset s.sendqueue)) fuel t
          total s v refl b
          (λ n s' some v' moved.
            transmit_loop-Outcome fuel (suc t) (total + n) s' v' (omega arith) (omega arith)) in
      elim (Bool-cases (is_empty s.sendqueue)) [
        | inl none_left ↦ rw none_left (stay s total (pos total) v (inl (ap pos (omega arith))))
        | inr more ↦ rw more round
      ]

  -- channel_transmit() ends, with fuel above the number of bytes still to be sent, where writev() never takes
  -- more than it is given. What the descriptor has taken, followed by what is still to be sent, is the same
  -- before and after: no byte is lost, sent twice or out of order. The answer is the number of bytes sent, also
  -- where writev() would block, except that it is 0 only if a call of writev() took nothing, and -1 only if one
  -- failed.
  pub channel_transmit_lem :
      (fuel : ℕ) (s : Sender)
      → IsSending s
      → length (pending s) < fuel
      → (rc : ℤ) × (s' : Sender) × (channel_transmit iov_max writev fuel s ≡ some (rc, s'))
        × Transmitted writev s 0 rc s'
  unfolding channel_transmit
  channel_transmit_lem fuel s v f =
      let left = length-drop s.msgoffset (queued s.stored s.sendqueue) in
      let small = v.small in transmit_loop-Outcome fuel 0 0 s v f (omega arith)

-- ===== src/Channel/Shared.antt =====
-- Messages that several send queues hold, and when they are destroyed (src/channel.c, src/session.c).
use libevlite.Base.{
  ℕ, suc, ◌+◌, ◌-◌, ◌≤◌, ◌<◌, ◌≡◌, ◌≢◌, refl, sym, ap, ◌∙◌, subst, Bool, true, false, ◌&&◌, List,
  [], ◌∷◌, ltb, ◌==◌, if◌then◌else◌, arith, occurs, Bool-cases, inl, inr, ℕ_discrete,
}
use libevlite.Base.Words.{u32_mod, add32}
use libevlite.Message.Defs.{Message, list_count, add_success, add_failure, is_complete}
use libevlite.Channel.Defs.{Store, update, Popped, pop_sent}
use libevlite.Channel.Store.{update_self, at_update}
use libevlite.Channel.Close.{end_queue}

abbrev pub finished : Message → ℕ
finished v = v.nsuccess + v.nfailure

-- Each receiver of a message is counted as done, waits in the queue, or waits in one of the other queues,
-- which hold the message at `a` `elsewhere a` times.
pub record IsShared (stored : Store) (q : List ℕ) (elsewhere : ℕ → ℕ) : Type 0 where
  pub shares :
      (a : ℕ) → finished (stored a) + occurs a q + elsewhere a ≡ list_count (stored a).tolist
  pub word : (a : ℕ) → list_count (stored a).tolist < u32_mod

-- Once if the queue held the message and no queue holds it now.
abbrev pub freed : ℕ → ℕ → ℕ → ℕ
freed before after elsewhere = if ltb after before && after + elsewhere == 0 then 1 else 0

head_self : (a : ℕ) (xs : List ℕ) → occurs a (a ∷ xs) ≡ suc (occurs a xs)
head_self a xs = let self : (a == a) ≡ true = ground arith in rw self (omega arith)

head_other : (b a : ℕ) (xs : List ℕ) → b ≢ a → occurs a (b ∷ xs) ≡ occurs a xs
head_other b a xs n = let miss : (b == a) ≡ false = ground arith in rw miss (omega arith)

-- The first place of a message is given up, and `v` counts it.
record IsReleased (stored : Store) (a : ℕ) (v : Message) : Type 0 where
  list : v.tolist ≡ (stored a).tolist
  counted : finished v ≡ finished (stored a) + 1

released-IsShared :
    (stored : Store) (a : ℕ) (v : Message) (q : List ℕ) (elsewhere : ℕ → ℕ)
    → IsShared stored (a ∷ q) elsewhere
    → IsReleased stored a v
    → IsShared (update stored a v) q elsewhere
released-IsShared stored a v q elsewhere h r = record {
  shares = λ b. elim (ℕ_discrete a b) [
    | yes e ↦
        subst
          (λ x.
            finished (update stored a v x) + occurs x q + elsewhere x
            ≡ list_count (update stored a v x).tolist)
          e
          (omega (
            arith,
            ap finished (update_self stored a v),
            r.counted,
            h.shares a,
            head_self a q,
            ap (λ w. list_count w.tolist) (update_self stored a v),
            ap list_count r.list,
          ))
    | no ne ↦
        at_update (λ x w. finished w + occurs x q + elsewhere x ≡ list_count w.tolist) stored a v b
          (λ e. absurd (ne e)) (omega (arith, h.shares b, head_other a b q ne))
  ];
  word = λ b.
      at_update (λ x w. list_count w.tolist < u32_mod) stored a v b
        (λ e. omega (arith, ap list_count r.list, h.word a)) (h.word b);
}

-- It is complete exactly if no queue holds the message any more.
released_complete :
    (stored : Store) (a : ℕ) (v : Message) (q : List ℕ) (elsewhere : ℕ → ℕ)
    → IsShared stored (a ∷ q) elsewhere
    → IsReleased stored a v
    → is_complete v ≡ (occurs a q + elsewhere a == 0)
unfolding is_complete
released_complete stored a v q elsewhere h r =
    let all = h.shares a in
    let word = h.word a in
    let list = ap list_count r.list in
    let sum : add32 v.nsuccess v.nfailure ≡ finished v = omega (arith, r.counted, head_self a q) in
    let left : finished v + (occurs a q + elsewhere a) ≡ list_count v.tolist =
      omega (arith, r.counted, head_self a q) in
    ap (λ n. list_count v.tolist == n) sum ∙ ground arith

-- The bookkeeping of one message that goes.
freed_head :
    (q p e gone : ℕ)
    → p ≤ q
    → gone ≡ freed q p e
    → (if q + e == 0 then 1 + gone else gone) ≡ freed (suc q) p e
freed_head q p e gone le h = ground arith

freed_other : (q e : ℕ) → freed q q e ≡ 0
freed_other q e = ground arith

-- What a loop that gives up places of the queue does with the messages.
pub record Freed (stored : Store) (q : List ℕ) (elsewhere : ℕ → ℕ) (p : Popped) : Type 0 where
  pub shared : IsShared p.remaining p.queue elsewhere
  pub fewer : (a : ℕ) → occurs a p.queue ≤ occurs a q
  pub freed_once : (a : ℕ) → occurs a p.gone ≡ freed (occurs a q) (occurs a p.queue) (elsewhere a)

nothing-Freed :
    (stored : Store) (offset : ℕ) (q : List ℕ) (elsewhere : ℕ → ℕ)
    → IsShared stored q elsewhere
    → Freed stored q elsewhere
        (record { remaining = stored; offset = offset; queue = q; gone = [] })
nothing-Freed stored offset q elsewhere h = record {
  shared = h;
  fewer = λ a. omega arith;
  freed_once = λ a. sym (freed_other (occurs a q) (elsewhere a));
}

next-Freed :
    (stored : Store) (a : ℕ) (v : Message) (q : List ℕ) (elsewhere : ℕ → ℕ) (rest : Popped)
    → IsShared stored (a ∷ q) elsewhere
    → IsReleased stored a v
    → Freed (update stored a v) q elsewhere rest
    → Freed stored
        (a ∷ q)
        elsewhere
        (record rest { gone = if is_complete v then a ∷ rest.gone else rest.gone })
next-Freed stored a v q elsewhere rest h r f = record {
  shared = f.shared;
  fewer = λ b. omega (arith, f.fewer b);
  freed_once = λ b. elim (ℕ_discrete a b) [
    | yes e ↦
        subst
          (λ x.
            occurs x (gone (is_complete v))
            ≡ freed (occurs x (a ∷ q)) (occurs x rest.queue) (elsewhere x))
          e
          (ap (λ c. occurs a (gone c)) (released_complete stored a v q elsewhere h r)
            ∙ in_head (occurs a q + elsewhere a == 0)
            ∙ freed_head (occurs a q) (occurs a rest.queue) (elsewhere a) (occurs a rest.gone)
                (f.fewer a) (f.freed_once a)
            ∙ ap (λ n. freed n (occurs a rest.queue) (elsewhere a)) (sym (head_self a q)))
    | no ne ↦
        beside b ne (is_complete v)
        ∙ f.freed_once b
        ∙ ap (λ n. freed n (occurs b rest.queue) (elsewhere b)) (sym (head_other a b q ne))
  ];
}
  where
    gone : Bool → List ℕ
    gone c = if c then a ∷ rest.gone else rest.gone

    in_head :
        (c : Bool) → occurs a (gone c) ≡ (if c then 1 + occurs a rest.gone else occurs a rest.gone)
    in_head true = omega (arith, head_self a rest.gone)
    in_head false = refl

    beside : (b : ℕ) → a ≢ b → (c : Bool) → occurs b (gone c) ≡ occurs b rest.gone
    beside b ne true = head_other a b rest.gone ne
    beside b ne false = refl

-- The loop of channel_transmit() over the messages that were sent, when each receiver of every message is
-- counted as done or is a place of the message in this send queue or another: this holds
-- again, and a message is destroyed once, exactly if it leaves this queue and no queue holds
-- it any more.
pub pop_sent-Freed :
    (q : List ℕ) (stored : Store) (offset : ℕ) (elsewhere : ℕ → ℕ)
    → IsShared stored q elsewhere
    → Freed stored q elsewhere (pop_sent stored offset q)
unfolding pop_sent add_success
pop_sent-Freed [] stored offset elsewhere h = nothing-Freed stored offset [] elsewhere h
pop_sent-Freed (a ∷ q) stored offset elsewhere h =
    let v = add_success (stored a) in
    let r : IsReleased stored a v = record {
      list = refl;
      counted = omega (arith, h.shares a, h.word a, head_self a q);
    } in
    let rest = pop_sent (update stored a v) (offset - (stored a).length) q in
    let next = next-Freed stored a v q elsewhere rest h r (
      pop_sent-Freed q (update stored a v) (offset - (stored a).length) elsewhere
        (released-IsShared stored a v q elsewhere h r)) in
    let choice : Bool → Popped = λ c.
      if c
      then record { remaining = stored; offset = offset; queue = a ∷ q; gone = [] }
      else record rest { gone = if is_complete v then a ∷ rest.gone else rest.gone } in
    elim (Bool-cases (ltb offset (stored a).length)) [
      | inl inside ↦
          subst (λ c. Freed stored (a ∷ q) elsewhere (choice c)) (sym inside)
            (nothing-Freed stored offset (a ∷ q) elsewhere h)
      | inr past ↦ subst (λ c. Freed stored (a ∷ q) elsewhere (choice c)) (sym past) next
    ]

-- session_end() empties the send queue, when each receiver of every message is counted as done or is a
-- place of the message in this send queue or another: this holds again, and a message is
-- destroyed once, exactly if this queue held it and no other does.
pub end_queue-Freed :
    (q : List ℕ) (stored : Store) (elsewhere : ℕ → ℕ)
    → IsShared stored q elsewhere
    → Freed stored q elsewhere (end_queue stored q) × ((end_queue stored q).queue ≡ [])
unfolding end_queue add_failure
end_queue-Freed [] stored elsewhere h = (nothing-Freed stored 0 [] elsewhere h, refl)
end_queue-Freed (a ∷ q) stored elsewhere h =
    let v = add_failure (stored a) in
    let r : IsReleased stored a v = record {
      list = refl;
      counted = omega (arith, h.shares a, h.word a, head_self a q);
    } in
    let (rest, none_left) =
      end_queue-Freed q (update stored a v) elsewhere
        (released-IsShared stored a v q elsewhere h r) in
    (next-Freed stored a v q elsewhere (end_queue (update stored a v) q) h r rest, none_left)

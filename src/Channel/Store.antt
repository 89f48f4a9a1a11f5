-- ===== src/Channel/Store.antt =====
-- Messages in memory, and the bytes that a send queue stands for (src/message.h, src/channel.c).
use libevlite.Base.{
  ℕ, zero, suc, ◌-◌, ◌≤◌, ◌<◌, true, false, List, [], ◌∷◌, ◌++◌, length, take, drop, ltb, ◌==◌,
  if◌then◌else◌, ◌≡◌, refl, sym, ap, ap₂, ◌∙◌, subst, arith, ℕ_discrete, dec_lt, take_all, drop_all,
  append_assoc, length-append, length-drop, drop-append_short, drop-append_long,
}
use libevlite.Message.Defs.{Message, add_success}
use libevlite.Channel.Defs.{Store, update, content, gather, concat, pop_sent, Popped}

-- The block of a message is as long as it says.
abbrev pub Whole : Message → Type 0
Whole m = length (content m) ≡ m.length

abbrev pub IsStore : Store → Type 0
IsStore stored = (a : ℕ) → Whole (stored a)

-- The bytes of the messages of a queue.
unfoldable pub queued : Store → List ℕ → List ℕ
queued stored [] = []
queued stored (a ∷ q) = content (stored a) ++ queued stored q

pub at_update :
    (P : ℕ → Message → Type 0) (stored : Store) (a : ℕ) (m : Message) (b : ℕ)
    → (a ≡ b → P b m)
    → P b (stored b)
    → P b (update stored a m b)
unfolding update
at_update P stored a m b new old = elim (ℕ_discrete a b) [
  | yes e ↦
      let hit : (a == b) ≡ true = ground arith in
      subst (λ c. P b (if c then m else stored b)) (sym hit) (new e)
  | no n ↦
      let miss : (a == b) ≡ false = ground arith in
      subst (λ c. P b (if c then m else stored b)) (sym miss) old
]

pub update_self : (stored : Store) (a : ℕ) (m : Message) → update stored a m a ≡ m
unfolding update
update_self stored a m =
    let hit : (a == a) ≡ true = ground arith in ap (λ c. if c then m else stored a) hit

pub content-add_success : (m : Message) → content (add_success m) ≡ content m
unfolding content add_success
content-add_success m = refl

pub Whole-add_success : (m : Message) → Whole m → Whole (add_success m)
unfolding content add_success
Whole-add_success m w = w

pub update-IsStore :
    (stored : Store) (a : ℕ) (m : Message) → IsStore stored → Whole m → IsStore (update stored a m)
update-IsStore stored a m valid w b = at_update (λ b. Whole) stored a m b (λ e. w) (valid b)

pub queued_same :
    (s₁ s₂ : Store) (q : List ℕ)
    → ((a : ℕ) → content (s₁ a) ≡ content (s₂ a))
    → queued s₁ q ≡ queued s₂ q
unfolding queued
queued_same s₁ s₂ [] e = refl
queued_same s₁ s₂ (a ∷ q) e = ap₂ (λ x y. x ++ y) (e a) (queued_same s₁ s₂ q e)

-- An update that leaves the bytes of the message.
pub queued-update_same :
    (stored : Store) (a : ℕ) (m : Message) (q : List ℕ)
    → content m ≡ content (stored a)
    → queued (update stored a m) q ≡ queued stored q
queued-update_same stored a m q e = queued_same (update stored a m) stored q (λ b.
    at_update (λ b m'. content m' ≡ content (stored b)) stored a m b
      (λ here. e ∙ ap (λ x. content (stored x)) here) refl)

pub queued-append :
    (stored : Store) (q q' : List ℕ) → queued stored (q ++ q') ≡ queued stored q ++ queued stored q'
unfolding queued
queued-append stored [] q' = refl
queued-append stored (a ∷ q) q' =
    ap (λ r. content (stored a) ++ r) (queued-append stored q q')
    ∙ sym (append_assoc (content (stored a)) (queued stored q) (queued stored q'))

-- The vector is a prefix of what is still to be sent.
abbrev pub Gathered : Store → ℕ → ℕ → List ℕ → Type 0
Gathered stored room offset q =
    (rest : List ℕ) × (concat (gather stored room offset q) ++ rest ≡ drop offset (queued stored q))

pub gather_lem :
    (stored : Store) (valid : IsStore stored) (q : List ℕ) (room offset : ℕ)
    → Gathered stored room offset q
unfolding gather queued
gather_lem stored valid [] room offset = ([], sym (drop_all offset [] (omega arith)))
gather_lem stored valid (a ∷ q) zero offset =
    (drop offset (content (stored a) ++ queued stored q), refl)
gather_lem stored valid (a ∷ q) (suc room) offset =
    let m = stored a in
    elim (dec_lt offset m.length) [
      | yes inside ↦
          let hit : ltb offset m.length ≡ true = ground arith in
          let (rest, e) = gather_lem stored valid q room 0 in
          let whole = valid a in
          let piece : take (m.length - offset) (drop offset (content m)) ≡ drop offset (content m) =
            take_all (m.length - offset) (drop offset (content m))
              (omega (arith, length-drop offset (content m))) in
          rw hit (
            rest,
            ap (λ x. x ++ concat (gather stored room 0 q) ++ rest) piece
                ∙ append_assoc (drop offset (content m)) (concat (gather stored room 0 q)) rest
                ∙ ap (λ r. drop offset (content m) ++ r) e
                ∙ sym (drop-append_short offset (content m) (queued stored q) (omega arith)),
          )
      | no past ↦
          let miss : ltb offset m.length ≡ false = ground arith in
          let (rest, e) = gather_lem stored valid q (suc room) (offset - m.length) in
          let whole = valid a in
          rw miss (
            rest,
            e
                ∙ sym (
                    drop-append_long (offset - m.length) offset (content m) (queued stored q)
                      (omega arith)),
          )
    ]

-- The offset is inside the first message.
abbrev pub IsOpen : Store → ℕ → List ℕ → Type 0
IsOpen stored offset [] = offset ≡ 0
IsOpen stored offset (a ∷ q) = offset < (stored a).length

-- What the loop over the head of the queue keeps.
pub record Kept (stored : Store) (offset : ℕ) (q : List ℕ) (p : Popped) : Type 0 where
  pub valid : IsStore p.remaining
  pub covered : p.offset ≤ length (queued p.remaining p.queue)
  pub pending : drop p.offset (queued p.remaining p.queue) ≡ drop offset (queued stored q)
  pub shorter : length (queued p.remaining p.queue) ≤ length (queued stored q)
  pub opened : IsOpen p.remaining p.offset p.queue

pub pop_sent-Kept :
    (stored : Store) (q : List ℕ) (offset : ℕ)
    → IsStore stored
    → offset ≤ length (queued stored q)
    → Kept stored offset q (pop_sent stored offset q)
unfolding pop_sent queued
pop_sent-Kept stored [] offset valid h = record {
  valid = valid;
  covered = h;
  pending = refl;
  shorter = omega arith;
  opened = omega arith;
}
pop_sent-Kept stored (a ∷ q) offset valid h =
    let m = stored a in
    let after = update stored a (add_success m) in
    let same : queued after q ≡ queued stored q =
      queued-update_same stored a (add_success m) q (content-add_success m) in
    let whole = valid a in
    let size = length-append (content m) (queued stored q) in
    let next =
      pop_sent-Kept after q (offset - m.length)
        (update-IsStore stored a (add_success m) valid (Whole-add_success m (valid a))) in
    elim (dec_lt offset m.length) [
      | yes inside ↦
          let hit : ltb offset m.length ≡ true = ground arith in
          rw hit (record {
            valid = valid;
            covered = h;
            pending = refl;
            shorter = omega arith;
            opened = inside;
          })
      | no past ↦
          let miss : ltb offset m.length ≡ false = ground arith in
          let k = next (subst (λ l. offset - m.length ≤ length l) (sym same) (omega arith)) in
          let long =
            drop-append_long (offset - m.length) offset (content m) (queued stored q)
              (omega arith) in
          let less = k.shorter in
          let eq = ap length same in
          rw miss (record {
            valid = k.valid;
            covered = k.covered;
            pending = k.pending ∙ ap (drop (offset - m.length)) same ∙ sym long;
            shorter = omega arith;
            opened = k.opened;
          })
    ]

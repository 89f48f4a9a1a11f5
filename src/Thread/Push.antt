-- ===== src/Thread/Push.antt =====
-- msgqueue_push() of src/msgqueue.c on a valid queue.
use libevlite.Base.{
  ◌^◌, ◌<◌, Bool, true, false, ◌&&◌, [], ◌∷◌, ◌++◌, length, ◌==◌, dec_lt, ◌≡◌, refl, ap, ap₂, ◌∙◌,
  arith, ◌⊎◌, inl, inr, length-append,
}
use libevlite.Base.Int.{ℤ, pos, negsuc}
use libevlite.Queue.Defs.{Queue, count, push}
use libevlite.Queue.Laws.{IsValid, contents, length-contents, count_le}
use libevlite.Queue.Fifo.{push_lem, push_failed}
use libevlite.Thread.Defs.{Task, null, is_zero, msgqueue_push}

-- msgqueue_push() on a valid queue that is not of the largest size.
abbrev pub Pushed : Queue Task → Task → ℤ × Bool × Queue Task → Type 0
Pushed q t r =
    ((r.0 ≡ pos 0)
      × (contents null r.2 ≡ contents null q ++ (t ∷ []))
      × IsValid r.2
      × ((r.1 ≡ true) ⊎ (0 < length (contents null q))))
    ⊎ (r ≡ (negsuc 0, false, q))

pushed :
    (allocated : Bool) (q : Queue Task) (t : Task)
    → IsValid q
    → (count q < q.size) ⊎ ((allocated ≡ true) × (q.size < 2 ^ 31))
    → Pushed q t (msgqueue_push allocated q t)
unfolding msgqueue_push is_zero
pushed allocated q t v able =
    let (e, c, v') = push_lem null q t allocated v able in
    let after = (push null allocated q t).1 in
    let size = length-contents null after in
    let len = ap length c ∙ length-append (contents null q) (t ∷ []) in
    inl (
      e,
      c,
      v',
      elim (dec_lt 0 (length (contents null q))) [
        | yes others ↦ inr others
        | no alone ↦
            let one : count after ≡ 1 = omega arith in
            inl (ap₂ (λ rc n. is_zero rc && n == 1) e one)
      ],
    )

pub msgqueue_push-Pushed :
    (allocated : Bool) (q : Queue Task) (t : Task)
    → IsValid q
    → q.size < 2 ^ 31
    → Pushed q t (msgqueue_push allocated q t)
unfolding msgqueue_push is_zero
msgqueue_push-Pushed true q t v small = pushed true q t v (inr (refl, small))
msgqueue_push-Pushed false q t v small = elim (dec_lt (count q) q.size) [
  | yes room ↦ pushed false q t v (inl room)
  | no full ↦
      let le = count_le null q v in
      inr
        (ap (λ p. (p.0, is_zero p.0 && count p.1 == 1, p.1)) (push_failed null q t v (omega arith)))
]

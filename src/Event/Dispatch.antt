-- ===== src/Event/Dispatch.antt =====
-- The loop of evtimer_dispatch() (src/timer.c) over one bucket.
use libevlite.Base.{
  ℕ, zero, suc, ◌+◌, ◌≤◌, ◌<◌, ◌≡◌, ◌≢◌, refl, sym, ap, ap₂, ◌∙◌, subst, Bool, true, false, Option,
  none, some, List, [], ◌∷◌, ◌++◌, append-nil, append_assoc, length, set, get_or, get_or-set_self,
  set-set, length-set, ◌==◌, if◌then◌else◌, arith, ℕ_discrete, ◌⊎◌, inl, inr, occurs, Bool-cases,
  dec_lt,
}
use libevlite.Base.Int.{ℤ, pos, negsuc}
use libevlite.Event.Defs.{Event, EventSet}
use libevlite.Event.Wheel.{bucket, last_of, tick, dispatch_bucket}
use libevlite.Event.Tick.{Turned, HasFired, tick_requeues, tick_fires}

-- The bucket of an event, and whether it is in its last round.
abbrev pub is_last_round : ℤ → Bool
is_last_round (pos zero) = false
is_last_round (pos (suc zero)) = true
is_last_round (pos (suc (suc n))) = false
is_last_round (negsuc n) = false

-- The events of a bucket that stay in it, and how many do not.
unfoldable pub kept : (ℕ → Event) → List ℕ → List ℕ
kept f [] = []
kept f (e ∷ es) = if is_last_round (f e).timer_stepcnt then kept f es else e ∷ kept f es

unfoldable pub fired : (ℕ → Event) → List ℕ → ℕ
fired f [] = 0
fired f (e ∷ es) = (if is_last_round (f e).timer_stepcnt then 1 else 0) + fired f es

kept_same :
    (f g : ℕ → Event) (es : List ℕ)
    → ((x : ℕ) → 0 < occurs x es → f x ≡ g x)
    → (kept f es ≡ kept g es) × (fired f es ≡ fired g es)
unfolding kept fired
kept_same f g [] h = (refl, refl)
kept_same f g (e ∷ es) h =
    let here : f e ≡ g e =
      h e (let self : (e == e) ≡ true = ground arith in rw self (omega arith)) in
    let (k, n) = kept_same f g es (λ x lt. h x (omega arith)) in
    (
      ap₂ (λ v r. if is_last_round v.timer_stepcnt then r else e ∷ r) here k,
      ap₂ (λ v r. (if is_last_round v.timer_stepcnt then 1 else 0) + r) here n,
    )

-- One tick for an event: a round less, or it fires.
abbrev pub Ticked : Event → Event → Type 0
Ticked ev ev' =
    ((n : ℕ) × (ev.timer_stepcnt ≡ pos (suc (suc n)))
      × (ev' ≡ record ev { timer_stepcnt = pos (suc n) }))
    ⊎ ((ev.timer_stepcnt ≡ pos 1) × HasFired ev')

last_occurs : (e : ℕ) (es : List ℕ) → 0 < occurs (last_of e es) (e ∷ es)
last_occurs e [] = let self : (e == e) ≡ true = ground arith in rw self (omega arith)
last_occurs e (x ∷ xs) = omega (arith, last_occurs x xs)

pub occurs_self : (e : ℕ) (es : List ℕ) → occurs e (e ∷ es) ≡ suc (occurs e es)
occurs_self e es = let self : (e == e) ≡ true = ground arith in rw self (omega arith)

pub occurs_other : (e x : ℕ) (es : List ℕ) → e ≢ x → occurs x (e ∷ es) ≡ occurs x es
occurs_other e x es n = let miss : (e == x) ≡ false = ground arith in rw miss (omega arith)

kept-head : (f : ℕ → Event) (e : ℕ) (es : List ℕ) → kept f (e ∷ es) ≡ kept f (e ∷ []) ++ kept f es
unfolding kept
kept-head f e es = elim (Bool-cases (is_last_round (f e).timer_stepcnt)) [
  | inl last ↦ rw last refl
  | inr more ↦ rw more refl
]

fired-head :
    (f : ℕ → Event) (e : ℕ) (es : List ℕ) → fired f (e ∷ es) ≡ fired f (e ∷ []) + fired f es
unfolding fired
fired-head f e es = omega arith

module _ {B : Type 0} where
  -- The event has rounds left, and knows its bucket.
  abbrev pub IsTimedIn : EventSet B → ℕ → ℕ → Type 0
  IsTimedIn s i x =
      ((s.stored x).timer_index ≡ pos i) × ((n : ℕ) × ((s.stored x).timer_stepcnt ≡ pos (suc n)))

  -- The events `es` at the head of bucket `i` have been seen, of which some are behind `back` now.
  pub record Looped (s : EventSet B) (i : ℕ) (es back : List ℕ) (s' : EventSet B) : Type 0 where
    pub refer : s'.core_timer.dispatch_refer ≡ s.core_timer.dispatch_refer
    pub count : s'.core_timer.bucket_count ≡ s.core_timer.bucket_count
    pub precision : s'.core_timer.max_precision ≡ s.core_timer.max_precision
    pub buckets :
        s'.core_timer.bucket_array ≡ set s.core_timer.bucket_array i (back ++ kept s.stored es)
    pub others : (x : ℕ) → occurs x es ≡ 0 → s'.stored x ≡ s.stored x
    pub ticked : (x : ℕ) → 0 < occurs x es → Ticked (s.stored x) (s'.stored x)

  -- One tick, of either kind.
  abbrev Once : EventSet B → ℕ → ℕ → List ℕ → ℕ → EventSet B × ℕ → Type 0
  Once s i e rest rc r =
      (r.1 ≡ rc + fired s.stored (e ∷ []))
      × Turned s i e (rest ++ kept s.stored (e ∷ [])) r.0
      × Ticked (s.stored e) (r.0.stored e)

  tick-Once :
      (s : EventSet B) (i e rc : ℕ) (rest : List ℕ)
      → IsTimedIn s i e
      → i < s.core_timer.bucket_count
      → bucket s.core_timer i ≡ e ∷ rest
      → Once s i e rest rc (tick i s e rc)
  unfolding kept fired
  tick-Once s i e rc rest (index, (zero, h)) lt at =
      let (c, t, f) = tick_fires s i e rc rest h index lt at in
      let last : is_last_round (s.stored e).timer_stepcnt ≡ true = ap is_last_round h in
      rw last (
        c ∙ omega arith,
        subst (λ b. Turned s i e b (tick i s e rc).0) (sym (append-nil rest)) t,
        inr (h, f),
      )
  tick-Once s i e rc rest (index, (suc n, h)) lt at =
      let (c, t, f) = tick_requeues s i e n rc rest h at in
      let more : is_last_round (s.stored e).timer_stepcnt ≡ false = ap is_last_round h in
      rw more (c ∙ omega arith, t, inl (n, h, f))

  -- Where the loop stands: the events `e ∷ es` are to be seen, and `back` is behind them.
  pub record Facing (s : EventSet B) (i e : ℕ) (es back : List ℕ) : Type 0 where
    pub at : bucket s.core_timer i ≡ e ∷ (es ++ back)
    pub once : (x : ℕ) → occurs x (e ∷ es) ≤ 1
    pub timed : (x : ℕ) → 0 < occurs x (e ∷ es) → IsTimedIn s i x
    pub inside : i < s.core_timer.bucket_count
    pub stored : i < length s.core_timer.bucket_array

  next-Facing :
      (s s' : EventSet B) (i e y : ℕ) (ys back : List ℕ)
      → Facing s i e (y ∷ ys) back
      → Turned s i e ((y ∷ ys ++ back) ++ kept s.stored (e ∷ [])) s'
      → Facing s' i y ys (back ++ kept s.stored (e ∷ []))
  next-Facing s s' i e y ys back f t =
      let mine = occurs_self e (y ∷ ys) in
      let other : (x : ℕ) → 0 < occurs x (y ∷ ys) → e ≢ x = λ x h same.
        omega (arith, f.once e, mine, subst (λ z. 0 < occurs z (y ∷ ys)) (sym same) h) in
      record {
        at =
            ap (λ a. get_or a i []) t.buckets
            ∙ get_or-set_self s.core_timer.bucket_array i _ [] f.stored
            ∙ append_assoc (y ∷ ys) back (kept s.stored (e ∷ []));
        once = λ x. omega (arith, f.once x);
        timed = λ x h.
            let (index, (n, step)) = f.timed x (omega (arith, h)) in
            let same = t.others x (other x h) in
            (ap (λ v. v.timer_index) same ∙ index, (n, ap (λ v. v.timer_stepcnt) same ∙ step));
        inside = subst (λ c. i < c) (sym t.count) f.inside;
        stored =
            subst (λ l. i < l)
              (sym (ap length t.buckets ∙ length-set s.core_timer.bucket_array i _)) f.stored;
      }

  -- The rest of the loop after the first event.
  next-Looped :
      (s s₁ s' : EventSet B) (i e : ℕ) (es back : List ℕ)
      → Turned s i e ((es ++ back) ++ kept s.stored (e ∷ [])) s₁
      → Ticked (s.stored e) (s₁.stored e)
      → kept s₁.stored es ≡ kept s.stored es
      → ((x : ℕ) → 0 < occurs x es → e ≢ x)
      → Looped s₁ i es (back ++ kept s.stored (e ∷ [])) s'
      → Looped s i (e ∷ es) back s'
  next-Looped s s₁ s' i e es back t tk same other l =
      let arr = s.core_timer.bucket_array in
      let mine = kept s.stored (e ∷ []) in
      record {
        refer = l.refer ∙ t.refer;
        count = l.count ∙ t.count;
        precision = l.precision ∙ t.precision;
        buckets =
            l.buckets
            ∙ ap₂ (λ a k. set a i ((back ++ mine) ++ k)) t.buckets same
            ∙ set-set arr i _ _
            ∙ ap (set arr i) (
                append_assoc back mine (kept s.stored es)
                ∙ ap (λ k. back ++ k) (sym (kept-head s.stored e es)));
        others = λ x none_of.
            let ne : e ≢ x = λ same_one.
              omega (arith, none_of, ap (λ z. occurs z (e ∷ es)) same_one, occurs_self e es) in
            l.others x (omega (arith, none_of)) ∙ t.others x ne;
        ticked = λ x some_of. elim (ℕ_discrete e x) [
          | yes same_one ↦
              let gone : occurs e es ≡ 0 = elim (dec_lt 0 (occurs e es)) [
                | yes lt ↦ absurd (other e lt refl)
                | no z ↦ omega arith
              ] in
              subst (λ z. Ticked (s.stored z) (s'.stored z)) same_one
                (subst (Ticked (s.stored e)) (sym (l.others e gone)) tk)
          | no ne ↦
              subst (λ v. Ticked v (s'.stored x)) (t.others x ne)
                (l.ticked x (omega (arith, some_of, occurs_other e x es ne)))
        ];
      }

  pub dispatch_bucket-Looped :
      (es : List ℕ) (s : EventSet B) (i e rc : ℕ) (back : List ℕ)
      → Facing s i e es back
      → (s' : EventSet B) × (dispatch_bucket i (last_of e es) (suc (length es)) s rc
          ≡ some (s', rc + fired s.stored (e ∷ es)))
        × Looped s i (e ∷ es) back s'
  unfolding dispatch_bucket
  dispatch_bucket-Looped [] s i e rc back f =
      let self : (e == e) ≡ true = ground arith in
      let (c, t, tk) =
        tick-Once s i e rc back (f.timed e (omega (arith, occurs_self e []))) f.inside f.at in
      let s₁ = (tick i s e rc).0 in
      let rc₁ = (tick i s e rc).1 in
      let loop : List ℕ → Option (EventSet B × ℕ) =
        λ b. elim b [ [] ↦ none | x ∷ xs ↦ if x == e then some (tick i s x rc) else none ] in
      let stop : Bool → Option (EventSet B × ℕ) = λ z. if z then some (s₁, rc₁) else none in
      (
        s₁,
        ap loop f.at ∙ ap stop self ∙ ap (λ n. some (s₁, n)) c,
        record {
          refer = t.refer;
          count = t.count;
          precision = t.precision;
          buckets = t.buckets;
          others = λ x none_of.
              t.others x (λ same.
                omega (arith, none_of, ap (λ z. occurs z (e ∷ [])) same, occurs_self e []));
          ticked = λ x some_of. elim (ℕ_discrete e x) [
            | yes same ↦ subst (λ z. Ticked (s.stored z) (s₁.stored z)) same tk
            | no ne ↦ absurd (omega (arith, some_of, occurs_other e x [] ne))
          ];
        },
      )
  dispatch_bucket-Looped (y ∷ ys) s i e rc back f =
      let (c, t, tk) =
        tick-Once s i e rc (y ∷ ys ++ back) (f.timed e (omega (arith, occurs_self e (y ∷ ys))))
          f.inside f.at in
      let s₁ = (tick i s e rc).0 in
      let rc₁ = (tick i s e rc).1 in
      let mine = occurs_self e (y ∷ ys) in
      let facing = next-Facing s s₁ i e y ys back f t in
      let (s', runs, l) =
        dispatch_bucket-Looped ys s₁ i y rc₁ (back ++ kept s.stored (e ∷ [])) facing in
      let other : (x : ℕ) → 0 < occurs x (y ∷ ys) → e ≢ x = λ x h same.
        omega (arith, f.once e, mine, subst (λ z. 0 < occurs z (y ∷ ys)) (sym same) h) in
      let going : (e == last_of y ys) ≡ false =
        let ne = other (last_of y ys) (last_occurs y ys) in ground arith in
      let same = kept_same s₁.stored s.stored (y ∷ ys) (λ x h. t.others x (other x h)) in
      let more = dispatch_bucket i (last_of y ys) (suc (length ys)) s₁ rc₁ in
      let loop : List ℕ → Option (EventSet B × ℕ) = λ b. elim b [
        | [] ↦ none
        | x ∷ xs ↦
            let r = tick i s x rc in
            if x == last_of y ys
            then some r
            else dispatch_bucket i (last_of y ys) (suc (length ys)) r.0 r.1
      ] in
      let stop : Bool → Option (EventSet B × ℕ) = λ z. if z then some (s₁, rc₁) else more in
      (
        s',
        ap loop f.at
            ∙ ap stop going
            ∙ runs
            ∙ ap (λ n. some (s', n)) (omega (arith, c, same.1, fired-head s.stored e (y ∷ ys))),
        next-Looped s s₁ s' i e (y ∷ ys) back t tk same.0 other l,
      )

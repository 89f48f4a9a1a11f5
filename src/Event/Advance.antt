-- ===== src/Event/Advance.antt =====
-- What one call of evtimer_dispatch() (src/timer.c) changes.
use native.Mathlib.Nat.{mod-lt}
use libevlite.Base.{
  ℕ, ◌≤◌, ◌<◌, ◌≡◌, ◌≢◌, refl, sym, ap, ◌∙◌, subst, true, false, Option, some, List, [], ◌∷◌,
  length, get_or-set_self, get_or-set_ne, length-set, append-nil, get_or, if◌then◌else◌, arith,
  ℕ_discrete, inl, inr, occurs, Bool-cases,
}
use libevlite.Base.Words.{add32}
use libevlite.Base.Bits.{pow_pos}
use libevlite.Event.Defs.{Event, EventSet, Timer}
use libevlite.Event.Wheel.{wheel_index, bucket, dispatch, dispatch_bucket, last_of}
use libevlite.Event.Due.{IsWheel, wheel_index-mod}
use libevlite.Event.Dispatch.{
  is_last_round, kept, fired, Ticked, IsTimedIn, Facing, dispatch_bucket-Looped, occurs_self,
  occurs_other,
}

-- The bucket that the next call of evtimer_dispatch() looks at.
abbrev pub current : Timer → ℕ
current t = wheel_index t t.dispatch_refer

pub occurs-kept :
    (f : ℕ → Event) (x : ℕ) (es : List ℕ)
    → occurs x (kept f es) ≡ (if is_last_round (f x).timer_stepcnt then 0 else occurs x es)
unfolding kept
occurs-kept f x [] = elim (Bool-cases (is_last_round (f x).timer_stepcnt)) [
  | inl last ↦ rw last refl
  | inr more ↦ rw more refl
]
occurs-kept f x (e ∷ es) =
    let rest = occurs-kept f x es in
    elim (ℕ_discrete e x) [
      | yes same ↦ elim (Bool-cases (is_last_round (f x).timer_stepcnt)) [
        | inl last ↦
            let here : is_last_round (f e).timer_stepcnt ≡ true =
              ap (λ z. is_last_round (f z).timer_stepcnt) same ∙ last in
            rw (here, last) (rest ∙ (rw last refl))
        | inr more ↦
            let here : is_last_round (f e).timer_stepcnt ≡ false =
              ap (λ z. is_last_round (f z).timer_stepcnt) same ∙ more in
            let tail : occurs x (kept f es) ≡ occurs x es = rest ∙ (rw more refl) in
            rw (here, more) (omega (arith, tail))
      ]
      | no ne ↦
          let miss = occurs_other e x es ne in
          elim (Bool-cases (is_last_round (f e).timer_stepcnt)) [
            | inl last ↦
                rw last
                  (rest ∙ ap (λ n. if is_last_round (f x).timer_stepcnt then 0 else n) (sym miss))
            | inr more ↦ rw more (
                occurs_other e x (kept f es) ne
                ∙ rest
                ∙ ap (λ n. if is_last_round (f x).timer_stepcnt then 0 else n) (sym miss))
          ]
    ]

module _ {B : Type 0} where
  unfoldable pub AllTimedIn : EventSet B → ℕ → List ℕ → Type 0
  AllTimedIn s i [] = Unit
  AllTimedIn s i (e ∷ es) = IsTimedIn s i e × AllTimedIn s i es

  -- Every event of the wheel is in one place, knows its bucket and has rounds left.
  pub record IsTimed (s : EventSet B) : Type 0 where
    pub wheel : IsWheel s.core_timer
    pub once : (b x : ℕ) → occurs x (bucket s.core_timer b) ≤ 1
    pub timed : (b : ℕ) → AllTimedIn s b (bucket s.core_timer b)

  pub one_of :
      (s : EventSet B) (i x : ℕ) (es : List ℕ)
      → AllTimedIn s i es
      → 0 < occurs x es
      → IsTimedIn s i x
  unfolding AllTimedIn
  one_of s i x [] a h = absurd (omega arith)
  one_of s i x (e ∷ es) (t, a) h = elim (ℕ_discrete e x) [
    | yes same ↦ subst (IsTimedIn s i) same t
    | no ne ↦ one_of s i x es a (omega (arith, h, occurs_other e x es ne))
  ]

  pub all_of :
      (s : EventSet B) (i : ℕ) (es : List ℕ)
      → ((x : ℕ) → 0 < occurs x es → IsTimedIn s i x)
      → AllTimedIn s i es
  unfolding AllTimedIn
  all_of s i [] f = tt
  all_of s i (e ∷ es) f =
      (f e (omega (arith, occurs_self e es)), all_of s i es (λ x h. f x (omega (arith, h))))

  -- What one call changes.
  pub record Advanced (s s' : EventSet B) : Type 0 where
    pub refer : s'.core_timer.dispatch_refer ≡ add32 s.core_timer.dispatch_refer 1
    pub count : s'.core_timer.bucket_count ≡ s.core_timer.bucket_count
    pub precision : s'.core_timer.max_precision ≡ s.core_timer.max_precision
    pub size : length s'.core_timer.bucket_array ≡ length s.core_timer.bucket_array
    pub here :
        bucket s'.core_timer (current s.core_timer)
        ≡ kept s.stored (bucket s.core_timer (current s.core_timer))
    pub elsewhere :
        (b : ℕ) → current s.core_timer ≢ b → bucket s'.core_timer b ≡ bucket s.core_timer b
    pub others :
        (x : ℕ)
        → occurs x (bucket s.core_timer (current s.core_timer)) ≡ 0
        → s'.stored x ≡ s.stored x
    pub ticked :
        (x : ℕ)
        → 0 < occurs x (bucket s.core_timer (current s.core_timer))
        → Ticked (s.stored x) (s'.stored x)

  -- After `dispatch_refer++`.
  abbrev referred : EventSet B → EventSet B
  referred s = record s {
    core_timer = record s.core_timer { dispatch_refer = add32 s.core_timer.dispatch_refer 1 };
  }

  pub current-lt :
      (s : EventSet B) → IsWheel s.core_timer → current s.core_timer < s.core_timer.bucket_count
  current-lt s v =
      let (k, _, pow) = v.power in
      let hb : 0 < s.core_timer.bucket_count = rw pow (pow_pos k) in
      rw (wheel_index-mod s.core_timer s.core_timer.dispatch_refer v)
        (mod-lt s.core_timer.dispatch_refer hb)

  pub dispatch-Advanced :
      (s : EventSet B)
      → IsTimed s
      → (s' : EventSet B) × (dispatch s
          ≡ some (s', fired s.stored (bucket s.core_timer (current s.core_timer))))
        × Advanced s s'
  unfolding dispatch kept fired
  dispatch-Advanced s v = by_bucket (bucket s.core_timer (current s.core_timer)) refl
    where
      i : ℕ
      i = current s.core_timer

      run : List ℕ → Option (EventSet B × ℕ)
      run b = elim b [
        | [] ↦ some (referred s, 0)
        | e ∷ es ↦ dispatch_bucket i (last_of e es) (length (e ∷ es)) (referred s) 0
      ]

      by_bucket :
          (b : List ℕ)
          → bucket s.core_timer i ≡ b
          → (s' : EventSet B) × (dispatch s ≡ some (s', fired s.stored (bucket s.core_timer i)))
            × Advanced s s'
      by_bucket [] at = (
        referred s,
        ap run at ∙ ap (λ b. some (referred s, fired s.stored b)) (sym at),
        record {
          refer = refl;
          count = refl;
          precision = refl;
          size = refl;
          here = at ∙ ap (kept s.stored) (sym at);
          elsewhere = λ b ne. refl;
          others = λ x none_of. refl;
          ticked = λ x some_of. absurd (omega (arith, ap (occurs x) at, some_of));
        },
      )
      by_bucket (e ∷ es) at =
          let inside = current-lt s v.wheel in
          let stored = subst (λ l. i < l) (sym v.wheel.stored) inside in
          let facing : Facing (referred s) i e es [] = record {
            at = at ∙ ap (λ r. e ∷ r) (sym (append-nil es));
            once = λ x. subst (λ b. occurs x b ≤ 1) at (v.once i x);
            timed = λ x h. one_of s i x (e ∷ es) (subst (AllTimedIn s i) at (v.timed i)) h;
            inside = inside;
            stored = stored;
          } in
          let (s', runs, l) = dispatch_bucket-Looped es (referred s) i e 0 [] facing in
          (
            s',
            ap run at ∙ runs ∙ ap (λ n. some (s', n)) (omega (arith, ap (fired s.stored) at)),
            record {
              refer = l.refer;
              count = l.count;
              precision = l.precision;
              size = ap length l.buckets ∙ length-set s.core_timer.bucket_array i _;
              here =
                  ap (λ a. get_or a i []) l.buckets
                  ∙ get_or-set_self s.core_timer.bucket_array i _ [] stored
                  ∙ ap (kept s.stored) (sym at);
              elsewhere = λ b ne.
                  ap (λ a. get_or a b []) l.buckets
                  ∙ get_or-set_ne s.core_timer.bucket_array i b _ [] ne;
              others = λ x none_of. l.others x (sym (ap (occurs x) at) ∙ none_of);
              ticked = λ x some_of. l.ticked x (subst (λ b. 0 < occurs x b) at some_of);
            },
          )

-- ===== src/Event/Due.antt =====
-- When an event of the timer wheel (src/timer.c) is due.
use native.Mathlib.Nat.{div-add-mod, mod-lt, le-div_iff_mul-le, mul-le-mul_left}
use libevlite.Base.{
  ℕ, zero, suc, ◌+◌, ◌-◌, ◌*◌, ◌/◌, ◌%◌, ◌^◌, ◌≤◌, ◌<◌, ◌≡◌, refl, sym, ap, ◌∙◌, true, ◌&&◌, not,
  [], ◌∷◌, ◌++◌, ltb, ◌==◌, if◌then◌else◌, length, arith, ℕ_discrete, false, get_or-set_self,
  length-set, subst,
}
use libevlite.Base.Int.{ℤ, pos}
use libevlite.Base.Words.{u32_mod, add32, sub32}
use libevlite.Base.Bits.{bit_and-mask, pow_pos}
use libevlite.Event.Rounds.{ahead, due_steps, some_step}
use libevlite.Base.Div.{div_mod_mul}
use libevlite.Event.Defs.{Timer, EventSet}
use libevlite.Event.Wheel.{wheel_index, bucket, steps, append, append_at, append_timeout}

-- A wheel of 2 ^ k buckets, on which no int32_t overflows.
pub record IsWheel (t : Timer) : Type 0 where
  pub power : (k : ℕ) × (k ≤ 30) × (t.bucket_count ≡ 2 ^ k)
  pub stored : length t.bucket_array ≡ t.bucket_count
  pub refer_word : t.dispatch_refer < u32_mod
  pub precise : 0 < t.max_precision
  pub round : t.max_precision * t.bucket_count < 2 ^ 31

-- The calls of evtimer_dispatch() until an event in bucket `b` with `steps` rounds is due, the
-- one that makes it active included.
abbrev pub due : Timer → ℤ → ℤ → ℕ
due t (pos b) (pos (suc rounds)) =
    wheel_index t (sub32 b t.dispatch_refer) + rounds * t.bucket_count + 1
due t b rounds = 0

pub wheel_index-mod : (t : Timer) (c : ℕ) → IsWheel t → wheel_index t c ≡ c % t.bucket_count
wheel_index-mod t c v = let (k, _, e) = v.power in rw e (bit_and-mask c k)

-- The timeout of `msecs` milliseconds, at least the precision, and its whole steps.
abbrev pub at_least : Timer → ℕ → ℕ
at_least t msecs = if ltb msecs t.max_precision then t.max_precision else msecs

-- One round more for a whole number of rounds and a part of a step.
abbrev pub late : Timer → ℕ → ℕ
late t tv =
    if (tv / t.max_precision) % t.bucket_count == 0 && not (tv % t.max_precision == 0)
    then t.bucket_count
    else 0

-- Where a timeout of `tv` is put.
abbrev pub place : Timer → ℕ → ℕ
place t tv = wheel_index t (add32 (sub32 t.dispatch_refer 1) (tv / t.max_precision))

some_round : (tv r : ℕ) → 0 < tv → 0 < tv / r + (if tv % r == 0 then 0 else 1)
some_round tv r h =
    let whole = div-add-mod tv r in
    elim (ℕ_discrete (tv / r) 0) [
      | yes short ↦
          let part : tv % r ≡ tv = omega (arith, whole, ap (λ q. r * q) short) in
          let miss : (tv % r == 0) ≡ false = ground arith in rw miss (omega arith)
      | no some ↦ omega arith
    ]

pub steps_positive : (t : Timer) (tv : ℕ) → 0 < tv → 0 < steps t tv
steps_positive t tv h = some_round tv ((t.max_precision * t.bucket_count) % u32_mod) h

due_positive :
    (t : Timer) (i n : ℕ)
    → 0 < n
    → due t (pos i) (pos n)
      ≡ wheel_index t (sub32 i t.dispatch_refer) + (n - 1) * t.bucket_count + 1
due_positive t i zero h = absurd (omega arith)
due_positive t i (suc n) h = let e : suc n - 1 ≡ n = omega arith in rw e refl

due-place :
    (t : Timer) (tv : ℕ)
    → IsWheel t
    → t.max_precision ≤ tv
    → tv < 2 ^ 31
    → due t (pos (place t tv)) (pos (steps t tv)) ≡ tv / t.max_precision + late t tv
due-place t tv v h small =
    let (k, le, pow) = v.power in
    let prec = t.max_precision in
    let b = t.bucket_count in
    let q = tv / prec in
    let hb : 0 < b = rw pow (pow_pos k) in
    let word : (prec * b) % u32_mod ≡ prec * b = omega (arith, v.round) in
    let (u, m) = div_mod_mul prec b tv v.precise hb in
    let positive : 0 < q = (le-div_iff_mul-le v.precise).1 (omega arith) in
    let whole = div-add-mod q b in
    let offset : wheel_index t (sub32 (place t tv) t.dispatch_refer) ≡ (q - 1) % b =
      wheel_index-mod t (sub32 (place t tv) t.dispatch_refer) v ∙ placed k pow le positive in
    let n = q / b + (if prec * (q % b) + tv % prec == 0 then 0 else 1) in
    let some =
      some_step b (q / b) (q % b) (tv % prec) prec (omega (arith, whole, positive)) v.precise in
    let known =
      due_steps b (q / b) (q % b) (tv % prec) prec hb (omega (arith, whole, positive)) v.precise
        (mod-lt q hb) in
    rw (word, u, m)
      (due_positive t (place t tv) n some
        ∙ omega (arith, offset, known, whole, ap (λ x. (x - 1) % b) whole))
  where
    placed :
        (k : ℕ)
        → t.bucket_count ≡ 2 ^ k
        → k ≤ 30
        → 0 < tv / t.max_precision
        → sub32 (place t tv) t.dispatch_refer % t.bucket_count
          ≡ (tv / t.max_precision - 1) % t.bucket_count
    placed k pow le positive =
        let refer = t.dispatch_refer in
        let q = tv / t.max_precision in
        let e = wheel_index-mod t (add32 (sub32 refer 1) q) v in
        rw e (
          subst (λ b. sub32 (add32 (sub32 refer 1) q % b) refer % b ≡ (q - 1) % b) (sym pow)
            (ahead k refer q le v.refer_word positive))

timeout_small : (t : Timer) (msecs : ℕ) → IsWheel t → msecs < 2 ^ 31 → at_least t msecs < 2 ^ 31
timeout_small t msecs v h =
    let (k, _, pow) = v.power in
    let hb : 0 < t.bucket_count = rw pow (pow_pos k) in
    let some = mul-le-mul_left {m = 1} {n = t.bucket_count} t.max_precision hb in
    ground (arith, v.round)

pub place-lt : (t : Timer) (tv : ℕ) → IsWheel t → place t tv < length t.bucket_array
place-lt t tv v =
    let (k, _, pow) = v.power in
    let hb : 0 < t.bucket_count = rw pow (pow_pos k) in
    rw (v.stored, wheel_index-mod t (add32 (sub32 t.dispatch_refer 1) (tv / t.max_precision)) v)
      (mod-lt (add32 (sub32 t.dispatch_refer 1) (tv / t.max_precision)) hb)

module _ {B : Type 0} where
  appended-IsWheel :
      (s : EventSet B) (e msecs : ℕ)
      → IsWheel s.core_timer
      → IsWheel (append_at s e msecs).core_timer
  unfolding append_at
  appended-IsWheel s e msecs v = record {
    power = v.power;
    stored =
        length-set s.core_timer.bucket_array (place s.core_timer (at_least s.core_timer msecs)) _
        ∙ v.stored;
    refer_word = v.refer_word;
    precise = v.precise;
    round = v.round;
  }

  pub append-timed :
      (s : EventSet B) (e msecs : ℕ)
      → (s.stored e).timer_msecs ≡ pos msecs
      → append s e ≡ (pos 0, append_at s e msecs)
  unfolding append append_timeout
  append-timed s e msecs timed = ap (append_timeout s e) timed

  -- evtimer_append() on a valid wheel, with a timeout that is not negative, puts the event behind those
  -- of one bucket, and it is due after as many calls of evtimer_dispatch() as the timeout, which is
  -- raised to the precision, has whole steps; except that one round more goes by when these make up
  -- whole rounds and a part of a step is left over.
  pub append-due :
      (s : EventSet B) (e msecs : ℕ)
      → IsWheel s.core_timer
      → (s.stored e).timer_msecs ≡ pos msecs
      → msecs < 2 ^ 31
      → let t = s.core_timer in
        let tv = at_least t msecs in
        let (rc, s') = append s e in
        (rc ≡ pos 0)
        × IsWheel s'.core_timer
        × (bucket s'.core_timer (place t tv) ≡ bucket t (place t tv) ++ e ∷ [])
        × (due s'.core_timer (s'.stored e).timer_index (s'.stored e).timer_stepcnt
            ≡ tv / t.max_precision + late t tv)
  unfolding append_at
  append-due s e msecs v timed small =
      let t = s.core_timer in
      let tv = at_least t msecs in
      let self : (e == e) ≡ true = ground arith in
      rw (append-timed s e msecs timed) (
        refl,
        appended-IsWheel s e msecs v,
        get_or-set_self t.bucket_array (place t tv) _ [] (place-lt t tv v),
        rw self (due-place t tv v (ground arith) (timeout_small t msecs v small)),
      )

-- ===== src/Poll/Pairs.antt =====
-- The pairs of events of src/epoll.c, and the retry of epoll_add().
use libevlite.Base.{
  ℕ, zero, suc, ◌*◌, ◌^◌, ◌≤◌, ◌<◌, Bool, true, false, ◌||◌, Option, none, some, List, [], ◌∷◌,
  ◌++◌, get_or, replicate, if◌then◌else◌, ◌≡◌, ◌≢◌, refl, sym, ap, ◌∙◌, subst, arith, ltb, leb,
  ◌==◌, dec_lt, ℕ_discrete, ◌⊎◌, inl, inr,
}
use native.Mathlib.Nat.{pow-suc}
use libevlite.Poll.Kernel.{
  CtlOp, ctl_add, ctl_mod, ctl_del, CtlError, enoent, eexist, other_error, Interest, Epoll, IsEpoll,
}
use libevlite.Poll.Defs.{EventPair, no_pair, is_some, retry, widen_pairs}

-- What should be registered for a pair.
abbrev pub interest_of : EventPair → Option Interest
interest_of p =
    if is_some p.evread || is_some p.evwrite
    then some (record { epollin = is_some p.evread; epollout = is_some p.evwrite })
    else none

-- The array that realloc() and memset() leave has the same pairs.
pub pair-longer :
    (pairs : List EventPair) (n i : ℕ)
    → get_or (pairs ++ replicate n no_pair) i no_pair ≡ get_or pairs i no_pair
pair-longer [] zero i = refl
pair-longer [] (suc n) zero = refl
pair-longer [] (suc n) (suc i) = pair-longer [] n i
pair-longer (p ∷ pairs) n zero = refl
pair-longer (p ∷ pairs) n (suc i) = pair-longer pairs n i

-- The loop of epoll_insert() ends above `last`.
pub widen_pairs_lem :
    (fuel last n : ℕ)
    → 0 < n
    → last < 2 ^ 30
    → last < n * 2 ^ fuel
    → (r : ℕ) × (widen_pairs (suc fuel) last n ≡ some r) × (n ≤ r) × (last < r)
unfolding widen_pairs
widen_pairs_lem zero last n positive small h =
    let wide : leb n last ≡ false = ground arith in rw wide (n, refl, omega arith, omega arith)
widen_pairs_lem (suc fuel) last n positive small h = elim (dec_lt last n) [
  | yes above ↦
      let wide : leb n last ≡ false = ground arith in rw wide (n, refl, omega arith, above)
  | no below ↦
      let reach : last < n * 2 * 2 ^ fuel =
        omega (arith, h, ap (λ (p : ℕ). n * p) (pow-suc 2 fuel)) in
      let narrow : leb n last ≡ true = ground arith in
      let word : ltb (n * 2) (2 ^ 31) ≡ true = ground arith in
      let (r, e, le, lt) = widen_pairs_lem fuel last (n * 2) (omega arith) small reach in
      rw (narrow, word) (r, e, omega arith, lt)
]

Option-cases : (o : Option Interest) → (o ≡ none) ⊎ ((m : Interest) × (o ≡ some m))
Option-cases none = inl refl
Option-cases (some m) = inr (m, refl)

error_code : Option CtlError → ℕ
error_code none = 0
error_code (some enoent) = 1
error_code (some eexist) = 2
error_code (some other_error) = 3

module _ {K : Type 0} (k : Epoll K) (laws : IsEpoll k) where
  retry_fine :
      (op : CtlOp) (r : Option CtlError × K) (fd : ℕ) (m : Interest)
      → r.0 ≡ none
      → retry k op r fd m ≡ r
  unfolding retry error_code
  retry_fine ctl_add (none, s) fd m e = refl
  retry_fine ctl_mod (none, s) fd m e = refl
  retry_fine ctl_del (none, s) fd m e = refl
  retry_fine op (some error, s) fd m e = ground (arith, ap error_code e)

  retry_as_add :
      (r : Option CtlError × K) (fd : ℕ) (m : Interest)
      → r.0 ≡ some enoent
      → retry k ctl_mod r fd m ≡ k.ctl r.1 ctl_add fd m
  unfolding retry error_code
  retry_as_add (none, s) fd m e = ground (arith, ap error_code e)
  retry_as_add (some enoent, s) fd m e = refl
  retry_as_add (some eexist, s) fd m e = ground (arith, ap error_code e)
  retry_as_add (some other_error, s) fd m e = ground (arith, ap error_code e)

  retry_as_mod :
      (r : Option CtlError × K) (fd : ℕ) (m : Interest)
      → r.0 ≡ some eexist
      → retry k ctl_add r fd m ≡ k.ctl r.1 ctl_mod fd m
  unfolding retry error_code
  retry_as_mod (none, s) fd m e = ground (arith, ap error_code e)
  retry_as_mod (some enoent, s) fd m e = ground (arith, ap error_code e)
  retry_as_mod (some eexist, s) fd m e = refl
  retry_as_mod (some other_error, s) fd m e = ground (arith, ap error_code e)

  -- After the call, or the two calls, `m` is registered, and nothing else has changed.
  abbrev pub Registered : K → ℕ → Interest → Option CtlError × K → Type 0
  Registered s fd m r =
      (r.0 ≡ none)
      × ((fd' : ℕ) → k.interest r.1 fd' ≡ (if fd == fd' then some m else k.interest s fd'))

  -- A state in which `m` is registered for `fd`, and nothing else has changed.
  pub spread :
      (s s' : K) (fd : ℕ) (m : Option Interest)
      → k.interest s' fd ≡ m
      → ((fd' : ℕ) → fd ≢ fd' → k.interest s' fd' ≡ k.interest s fd')
      → (fd' : ℕ) → k.interest s' fd' ≡ (if fd == fd' then m else k.interest s fd')
  spread s s' fd m here there fd' = elim (ℕ_discrete fd fd') [
    | yes e ↦
        let hit : (fd == fd') ≡ true = ground arith in
        rw hit (subst (λ x. k.interest s' x ≡ m) e here)
    | no n ↦ let miss : (fd == fd') ≡ false = ground arith in rw miss (there fd' n)
  ]

  one_call :
      (s : K) (op : CtlOp) (fd : ℕ) (m : Interest)
      → ((k.ctl s op fd m).0 ≡ none) × (k.interest (k.ctl s op fd m).1 fd ≡ some m)
      → Registered s fd m (retry k op (k.ctl s op fd m) fd m)
  one_call s op fd m (e, here) =
      subst (Registered s fd m) (sym (retry_fine op (k.ctl s op fd m) fd m e))
        (e, spread s (k.ctl s op fd m).1 fd (some m) here (λ fd' n. laws.others s op fd fd' m n))

  two_calls :
      (s s' : K) (op : CtlOp) (fd : ℕ) (m : Interest) (r : Option CtlError × K)
      → r ≡ k.ctl s' op fd m
      → ((fd' : ℕ) → fd ≢ fd' → k.interest s' fd' ≡ k.interest s fd')
      → ((k.ctl s' op fd m).0 ≡ none) × (k.interest (k.ctl s' op fd m).1 fd ≡ some m)
      → Registered s fd m r
  two_calls s s' op fd m r again there (e, here) = subst (Registered s fd m) (sym again) (
    e,
    spread s (k.ctl s' op fd m).1 fd (some m) here
        (λ fd' n. laws.others s' op fd fd' m n ∙ there fd' n),
  )

  pub retry-Registered :
      (s : K) (changes : Bool) (fd : ℕ) (m : Interest)
      → let op = if changes then ctl_mod else ctl_add in
        Registered s fd m (retry k op (k.ctl s op fd m) fd m)
  retry-Registered s true fd m = elim (Option-cases (k.interest s fd)) [
    | inl gone ↦
        let (e, here) = laws.mod_new s fd m gone in
        two_calls s (k.ctl s ctl_mod fd m).1 ctl_add fd m
          (retry k ctl_mod (k.ctl s ctl_mod fd m) fd m) (retry_as_add (k.ctl s ctl_mod fd m) fd m e)
          (λ fd' n. laws.others s ctl_mod fd fd' m n)
          (laws.add_new (k.ctl s ctl_mod fd m).1 fd m here)
    | inr (old, known) ↦ one_call s ctl_mod fd m (laws.mod_known s fd m old known)
  ]
  retry-Registered s false fd m = elim (Option-cases (k.interest s fd)) [
    | inl new ↦ one_call s ctl_add fd m (laws.add_new s fd m new)
    | inr (old, known) ↦
        let (e, here) = laws.add_known s fd m old known in
        two_calls s (k.ctl s ctl_add fd m).1 ctl_mod fd m
          (retry k ctl_add (k.ctl s ctl_add fd m) fd m) (retry_as_mod (k.ctl s ctl_add fd m) fd m e)
          (λ fd' n. laws.others s ctl_add fd fd' m n)
          (laws.mod_known (k.ctl s ctl_add fd m).1 fd m old here)
  ]

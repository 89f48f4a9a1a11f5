-- ===== src/Buffer/Expand.antt =====
-- _expand() of src/message.c, which is to make room for `n` more bytes.
use native.Mathlib.Nat.{pow-suc}
use native.Mathlib.Decide.{dec_le}
use libevlite.Base.{
  ℕ, zero, suc, ◌+◌, ◌-◌, ◌*◌, ◌%◌, ◌^◌, ◌≤◌, ◌<◌, ◌≡◌, ◌⊎◌, inl, inr, refl, ap, ◌∙◌, replicate,
  arith, Bool, true, false, some, length-append, length-replicate, dec_lt, ltb, leb, lt→ltb,
  Bool-cases, ◌==◌, if◌then◌else◌, take-append_short,
}
use libevlite.Base.Int.{ℤ, pos, negsuc}
use libevlite.Base.Words.{u64_mod, add64, sub64}
use libevlite.Buffer.Defs.{Buffer, bytes, align, widen, fuel, at_least_min, reallocate, expand}
use libevlite.Buffer.Bytes.{IsValid, length-write_at, length-bytes, slice-write_at}

widen_step :
    (k need size : ℕ)
    → size < need
    → need ≤ 2 ^ 63
    → widen (suc k) need size ≡ widen k need (size * 2)
unfolding widen
widen_step k need size lt h =
    let word : size * 2 % u64_mod ≡ size * 2 = omega arith in rw (lt→ltb size need lt, word)

widen_bound :
    {size need c : ℕ} → (c ≡ size * 2) ⊎ (c < need * 2) → size < need → need ≤ c → c < need * 2
widen_bound small lt holds = omega arith

-- The doubling loop ends, at a capacity that holds what is needed.
pub widen_lem :
    (k size need : ℕ)
    → need ≤ 2 ^ 63
    → need ≤ size * 2 ^ k
    → (c : ℕ) × (widen (suc k) need size ≡ some c)
      × (need ≤ c)
      × (size ≤ c)
      × ((c ≡ size) ⊎ (c < need * 2))
unfolding widen
widen_lem zero size need h enough =
    let done : ltb size need ≡ false = ground arith in
    (size, rw done, omega arith, omega arith, inl refl)
widen_lem (suc k) size need h enough = elim (dec_lt size need) [
  | no done ↦ (size, ground arith, omega arith, omega arith, inl refl)
  | yes lt ↦
      let reach : need ≤ size * 2 * 2 ^ k =
        omega (arith, enough, ap (λ (p : ℕ). size * p) (pow-suc 2 k)) in
      let (c, run, holds, grown, small) = widen_lem k (size * 2) need h reach in
      (
        c,
        widen_step (suc k) need size lt h ∙ run,
        holds,
        omega arith,
        inr (widen_bound small lt holds),
      )
]

module _ (b : Buffer) (v : IsValid b) where
  align-bytes : bytes (align b) ≡ bytes b
  unfolding align
  align-bytes =
      let n = length-bytes b v in
      slice-write_at b.store (bytes b) 0 0 0 b.length refl (omega arith) (omega arith)

  align-IsValid : IsValid (align b)
  unfolding align
  align-IsValid =
      let n = length-bytes b v in
      record {
        stored = length-write_at b.store (bytes b) 0 (omega (arith, v.stored, v.fits)) ∙ v.stored;
        fits = omega (arith, v.fits);
        small = v.small;
      }

  reallocate-bytes :
      (junk n : ℕ) (allocated : Bool)
      → b.offset ≡ 0
      → bytes (reallocate junk allocated n b).1 ≡ bytes b
  unfolding reallocate
  reallocate-bytes junk n false e = refl
  reallocate-bytes junk n true e = rw e (
      take-append_short b.length b.store (replicate (n - b.capacity) junk)
        (omega (arith, v.stored, v.fits)))

  reallocate-IsValid :
      (junk n : ℕ) (allocated : Bool)
      → b.offset ≡ 0
      → b.capacity ≤ n
      → n ≤ 2 ^ 63
      → IsValid (reallocate junk allocated n b).1
  unfolding reallocate
  reallocate-IsValid junk n false e le small = v
  reallocate-IsValid junk n true e le small = record {
    stored = omega (
      arith,
      v.stored,
      length-append b.store (replicate (n - b.capacity) junk),
      length-replicate (n - b.capacity) junk,
    );
    fits = omega (arith, v.fits);
    small = small;
  }

-- What _expand() promises for `n` more bytes: it ends, the bytes are the same and the buffer stays
-- valid; it reports 0 and there is room, or -1, which only a failed realloc() causes.
pub record Expanded (b : Buffer) (n : ℕ) (allocated : Bool) (rc : ℤ) (r : Buffer) : Type 0 where
  pub valid : IsValid r
  pub same : bytes r ≡ bytes b
  pub size : r.length ≡ b.length
  pub outcome :
      ((rc ≡ pos 0) × (r.offset + r.length + n ≤ r.capacity))
      ⊎ ((rc ≡ negsuc 0) × (allocated ≡ false))

module _ (junk : ℕ) (allocated : Bool) where
  reallocate-Expanded :
      (b : Buffer) (n size : ℕ)
      → IsValid b
      → b.offset ≡ 0
      → b.capacity ≤ size
      → b.length + n ≤ size
      → size ≤ 2 ^ 63
      → let (rc, r) = reallocate junk allocated size b in Expanded b n allocated rc r
  unfolding reallocate
  reallocate-Expanded b n size v e grown room small = record {
    valid = reallocate-IsValid b v junk size allocated e grown small;
    same = reallocate-bytes b v junk size allocated e;
    size = ground arith;
    outcome = ground arith;
  }

  aligned :
      (b : Buffer)
      → ((align b).offset ≡ 0) × ((align b).length ≡ b.length) × ((align b).capacity ≡ b.capacity)
  unfolding align
  aligned b = (refl, refl, refl)

  length-align : (b : Buffer) → (align b).length ≡ b.length
  length-align b = (aligned b).1

  -- The buffer that goes to realloc(): its bytes stand at the start of the block.
  abbrev front : Buffer → Buffer
  front b = if b.offset == 0 then b else align b

  front-Same :
      (b : Buffer)
      → IsValid b
      → IsValid (front b)
        × (bytes (front b) ≡ bytes b)
        × ((front b).offset ≡ 0)
        × ((front b).length ≡ b.length)
        × ((front b).capacity ≡ b.capacity)
  unfolding align
  front-Same b v = elim (Bool-cases (b.offset == 0)) [
    | inl zero_offset ↦ rw zero_offset (v, refl, ground arith, refl, refl)
    | inr moved ↦ rw moved (align-IsValid b v, align-bytes b v, refl, refl, refl)
  ]

  expand_room :
      (b : Buffer) (n : ℕ)
      → b.offset + b.length + n ≤ b.capacity
      → b.capacity ≤ 2 ^ 63
      → expand junk allocated b n ≡ some (pos 0, b)
  unfolding expand
  expand_room b n fits h = ground arith

  expand-align :
      (b : Buffer) (n : ℕ)
      → IsValid b
      → b.offset + b.length + n ≤ 2 ^ 62
      → b.capacity < b.offset + b.length + n
      → b.length + n ≤ b.capacity
      → expand junk allocated b n ≡ some (pos 0, align b)
  unfolding expand
  expand-align b n v small full room = ground arith

  expand-widen :
      (b : Buffer) (n size : ℕ)
      → IsValid b
      → b.offset + b.length + n ≤ 2 ^ 62
      → b.capacity < b.length + n
      → widen fuel (b.offset + b.length + n) (at_least_min b.capacity) ≡ some size
      → expand junk allocated b n ≡ some (reallocate junk allocated size (front b))
  unfolding expand
  expand-widen b n size v small full run =
      let word : add64 (add64 b.offset b.length) n ≡ b.offset + b.length + n = omega arith in
      let over : leb (b.offset + b.length + n) b.capacity ≡ false = ground arith in
      let wide : leb n (sub64 b.capacity b.length) ≡ false = ground arith in
      rw (word, over, wide, run)

  at_least_min_bounds :
      (c : ℕ) → (c ≤ at_least_min c) × (128 ≤ at_least_min c) × (at_least_min c ≤ c + 128)
  at_least_min_bounds c = ground arith

  widened :
      (b : Buffer) (n : ℕ)
      → IsValid b
      → b.offset + b.length + n ≤ 2 ^ 62
      → b.capacity < b.length + n
      → (rc : ℤ) × (r : Buffer) × (expand junk allocated b n ≡ some (rc, r))
        × Expanded b n allocated rc r
  widened b n v small full =
      let bounds = at_least_min_bounds b.capacity in
      let (size, run, holds, grown, kind) =
        widen_lem 63 (at_least_min b.capacity) (b.offset + b.length + n) (omega arith)
          (omega arith) in
      let (valid, same, zero_offset, len, room) = front-Same b v in
      let e : Expanded (front b) n allocated (reallocate junk allocated size (front b)).0
          (reallocate junk allocated size (front b)).1 =
        reallocate-Expanded (front b) n size valid zero_offset (omega arith) (omega arith)
          (omega arith) in
      (
        (reallocate junk allocated size (front b)).0,
        (reallocate junk allocated size (front b)).1,
        expand-widen b n size v small full run,
        record { valid = e.valid; same = e.same ∙ same; size = e.size ∙ len; outcome = e.outcome },
      )

  -- _expand() of a valid buffer ends whatever it is asked for up to 2 ^ 62 bytes, and keeps the valid bytes and the
  -- invariant; it reports 0 with room for `n` bytes behind them, or -1 if realloc() failed.
  pub expand_lem :
      (b : Buffer) (n : ℕ)
      → IsValid b
      → b.offset + b.length + n ≤ 2 ^ 62
      → (rc : ℤ) × (r : Buffer) × (expand junk allocated b n ≡ some (rc, r))
        × Expanded b n allocated rc r
  expand_lem b n v small = elim (dec_le (b.offset + b.length + n) b.capacity) [
    | yes fits ↦ (
      pos 0,
      b,
      expand_room b n fits v.small,
      record { valid = v; same = refl; size = refl; outcome = inl (refl, fits) },
    )
    | no full ↦ elim (dec_le (b.length + n) b.capacity) [
      | yes room ↦ (
        pos 0,
        align b,
        expand-align b n v small (omega arith) room,
        record {
          valid = align-IsValid b v;
          same = align-bytes b v;
          size = length-align b;
          outcome = inl (refl, omega (arith, aligned b, room));
        },
      )
      | no tight ↦ widened b n v small (omega arith)
    ]
  ]

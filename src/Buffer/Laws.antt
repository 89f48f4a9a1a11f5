-- ===== src/Buffer/Laws.antt =====
-- buffer_append, buffer_erase and buffer_take of src/message.c, by the valid bytes.
use native.Mathlib.Decide.{dec_le}
use libevlite.Base.{
  ℕ, ◌+◌, ◌-◌, ◌^◌, ◌≤◌, ◌≡◌, ◌⊎◌, inl, inr, refl, sym, ap, ◌∙◌, List, ◌++◌, length, take, drop,
  arith, Bool, true, false, some, ltb, leb, ltb→lt, length-take, Bool-cases, drop-drop, drop-take,
  take_all, drop_all, take-append-drop,
}
use libevlite.Base.Int.{ℤ, pos, negsuc}
use libevlite.Base.Words.{add64}
use libevlite.Buffer.Defs.{Buffer, bytes, extend, append_expanded, append, erase, take_out}
use libevlite.Buffer.Bytes.{IsValid, length-write_at, length-bytes, slice-write_at}
use libevlite.Buffer.Expand.{Expanded, expand_lem}

-- The copy behind the valid bytes, where there is room for it.
pub extend_lem :
    (b : Buffer) (bs : List ℕ)
    → IsValid b
    → b.offset + b.length + length bs ≤ b.capacity
    → IsValid (extend b bs) × (bytes (extend b bs) ≡ bytes b ++ bs)
unfolding extend
extend_lem b bs v room =
    let word : add64 b.length (length bs) ≡ b.length + length bs = omega arith in
    (
      record {
        stored = length-write_at b.store bs (b.offset + b.length) (omega arith) ∙ v.stored;
        fits = omega arith;
        small = v.small;
      },
      slice-write_at b.store bs b.offset b.length (b.offset + b.length) _ refl word (omega arith),
    )

pub offset-extend :
    (b : Buffer) (bs : List ℕ)
    → ((extend b bs).offset ≡ b.offset)
      × ((extend b bs).length ≡ add64 b.length (length bs))
      × ((extend b bs).capacity ≡ b.capacity)
unfolding extend
offset-extend b bs = (refl, refl, refl)

-- What buffer_append() of `bs` leaves: all bytes, the new ones behind the old, and 0; or, if
-- realloc() failed, the old bytes and -1.
pub record Appended (b : Buffer) (bs : List ℕ) (allocated : Bool) (rc : ℤ) (r : Buffer)
    : Type 0 where
  pub valid : IsValid r
  pub outcome :
      ((rc ≡ pos 0) × (bytes r ≡ bytes b ++ bs))
      ⊎ ((rc ≡ negsuc 0) × (allocated ≡ false) × (bytes r ≡ bytes b))

module _ (junk : ℕ) (allocated : Bool) where
  append_expanded-Appended :
      (b r : Buffer) (bs : List ℕ) (rc : ℤ)
      → Expanded b (length bs) allocated rc r
      → let (rc', r') = append_expanded bs (rc, r) in Appended b bs allocated rc' r'
  unfolding append_expanded
  append_expanded-Appended b r bs rc e = elim e.outcome [
    | inl (zero_rc, room) ↦
        let (valid, all) = extend_lem r bs e.valid room in
        rw zero_rc
          (record { valid = valid; outcome = inl (refl, all ∙ ap (λ old. old ++ bs) e.same) })
    | inr (failed, no_memory) ↦
        rw failed (record { valid = e.valid; outcome = inr (refl, no_memory, e.same) })
  ]

  -- buffer_append() ends for every valid buffer and length up to 2 ^ 62 bytes and keeps the invariant. It
  -- reports 0 with exactly the new bytes behind the old ones, or, only if realloc() fails, -1 with
  -- the old bytes unchanged.
  pub append_lem :
      (b : Buffer) (bs : List ℕ)
      → IsValid b
      → b.offset + b.length + length bs ≤ 2 ^ 62
      → (rc : ℤ) × (r : Buffer) × (append junk allocated b bs ≡ some (rc, r))
        × Appended b bs allocated rc r
  unfolding append
  append_lem b bs v small = elim (dec_le (b.offset + b.length + length bs) b.capacity) [
    | yes room ↦
        let (valid, all) = extend_lem b bs v room in
        let word : ltb b.capacity (add64 (add64 b.offset b.length) (length bs)) ≡ false =
          ground arith in
        (pos 0, extend b bs, rw word, record { valid = valid; outcome = inl (refl, all) })
    | no full ↦
        let word : ltb b.capacity (add64 (add64 b.offset b.length) (length bs)) ≡ true =
          ground arith in
        let (rc, r, run, e) = expand_lem junk allocated b (length bs) v small in
        (
          (append_expanded bs (rc, r)).0,
          (append_expanded bs (rc, r)).1,
          rw (word, run),
          append_expanded-Appended b r bs rc e,
        )
  ]

-- buffer_erase() of a valid buffer drops the first `n` valid bytes, all of them if there are fewer, and keeps the
-- invariant.
pub erase_lem :
    (b : Buffer) (n : ℕ) → IsValid b → IsValid (erase b n) × (bytes (erase b n) ≡ drop n (bytes b))
unfolding erase
erase_lem b n v = elim (dec_le b.length n) [
  | yes all ↦
      let covered : leb b.length n ≡ true = ground arith in
      rw covered (
        record { stored = v.stored; fits = omega arith; small = v.small },
        sym (drop_all n (bytes b) (omega (arith, length-bytes b v))),
      )
  | no more ↦
      let part : leb b.length n ≡ false = ground arith in
      rw part (
        record { stored = v.stored; fits = omega arith; small = v.small },
        ap (take (b.length - n)) (sym (drop-drop n b.offset (b.offset + n) b.store (omega arith)))
            ∙ sym (drop-take n b.length (drop b.offset b.store)),
      )
]

split_at :
    (b : Buffer) (k : ℕ)
    → IsValid b
    → k ≤ b.length
    → (k ≡ length (take k (bytes b)))
      × (take k (bytes b) ++ bytes (erase b k) ≡ bytes b)
      × IsValid (erase b k)
split_at b k v h =
    let (valid, rest) = erase_lem b k v in
    (
      omega (arith, length-take k (bytes b), length-bytes b v),
      ap (λ r. take k (bytes b) ++ r) rest ∙ take-append-drop k (bytes b),
      valid,
    )

-- buffer_take() of a valid buffer copies out the first `n` valid bytes, or all if there are fewer, returns their
-- number, and leaves the rest: what is copied out and what is left make up the old bytes.
pub take_out_lem :
    (b : Buffer) (n : ℕ)
    → IsValid b
    → let (out, k, r) = take_out b n in
      (out ≡ take n (bytes b)) × (k ≡ length out) × (out ++ bytes r ≡ bytes b) × IsValid r
unfolding take_out
take_out_lem b n v = elim (Bool-cases (ltb b.length n)) [
  | inl short ↦
      let (count, split, valid) = split_at b b.length v (omega arith) in
      let size = length-bytes b v in
      rw short (
        take_all b.length (bytes b) (omega arith)
            ∙ sym (take_all n (bytes b) (omega (arith, ltb→lt b.length n short))),
        count,
        split,
        valid,
      )
  | inr enough ↦
      let (count, split, valid) = split_at b n v (ground arith) in
      rw enough (refl, count, split, valid)
]

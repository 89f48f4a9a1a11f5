-- ===== src/Buffer/ReadLaws.antt =====
-- What the reads of src/message.c leave in the buffer.
use libevlite.Base.{
  ℕ, ◌+◌, ◌^◌, ◌≤◌, ◌<◌, ◌≡◌, ◌⊎◌, inl, inr, refl, ap, ◌∙◌, List, ◌++◌, length, take, drop, arith,
  Bool, false, Option, some, dec_lt, lt→ltb, length-take, length-drop, append_assoc,
  take-append-drop,
}
use libevlite.Base.Int.{ℤ, pos, negsuc}
use libevlite.Buffer.Defs.{Buffer, bytes, left, extend, append, max_buffer_length}
use libevlite.Buffer.Bytes.{IsValid}
use libevlite.Buffer.Laws.{append_lem, extend_lem, offset-extend}
use libevlite.Buffer.Read.{vector_room, spill, read_withvector, fionread, request}

left_lem : (b : Buffer) → IsValid b → b.offset + b.length + left b ≡ b.capacity
unfolding left
left_lem b v = omega (arith, v.fits, v.small)

-- One readv() is always offered the 64k of `extra` at least.
pub vector_room-ge : (b : Buffer) → max_buffer_length ≤ vector_room b
unfolding vector_room
vector_room-ge b = ground arith

-- What a read of `bs` leaves: all of them behind the old bytes, and their number; or -2, only if
-- realloc() failed, and then a part of them behind the old bytes.
pub record Received (b : Buffer) (bs : List ℕ) (allocated : Bool) (rc : ℤ) (r : Buffer)
    : Type 0 where
  pub valid : IsValid r
  pub outcome :
      ((rc ≡ pos (length bs)) × (bytes r ≡ bytes b ++ bs))
      ⊎ ((rc ≡ negsuc 1) × (allocated ≡ false) × (bytes r ≡ bytes b ++ take (left b) bs))

module _ (junk : ℕ) (allocated : Bool) where
  spilled :
      (b : Buffer) (bs : List ℕ)
      → IsValid b
      → b.offset + b.length + length bs ≤ 2 ^ 62
      → left b < length bs
      → (rc : ℤ) × (r : Buffer) × (spill
            (length bs)
            (append junk allocated (extend b (take (left b) bs)) (drop (left b) bs))
          ≡ some (rc, r))
        × Received b bs allocated rc r
  unfolding spill
  spilled b bs v small lt =
      let room = left_lem b v in
      let fits = length-take (left b) bs in
      let more = length-drop (left b) bs in
      let (valid, kept) = extend_lem b (take (left b) bs) v (omega arith) in
      let (off, len, _) = offset-extend b (take (left b) bs) in
      let (rc, r, run, e) =
        append_lem junk allocated (extend b (take (left b) bs)) (drop (left b) bs) valid
          (omega arith) in
      elim e.outcome [
        | inl (done, all) ↦ (
          pos (length bs),
          r,
          rw (run, done),
          record {
            valid = e.valid;
            outcome = inl (
              refl,
              all
                  ∙ ap (λ old. old ++ drop (left b) bs) kept
                  ∙ append_assoc (bytes b) (take (left b) bs) (drop (left b) bs)
                  ∙ ap (λ new. bytes b ++ new) (take-append-drop (left b) bs),
            );
          },
        )
        | inr (failed, no_memory, part) ↦ (
          negsuc 1,
          r,
          rw (run, failed),
          record { valid = e.valid; outcome = inr (refl, no_memory, part ∙ kept) },
        )
      ]

  -- buffer_readv(), and buffer_read() with 0, on a valid buffer and delivery of any bytes up to 2 ^ 62: it ends, keeps the invariant
  -- and reports their number with exactly these bytes behind the old ones, also when they do not fit
  -- in the block; or -2 if realloc() fails for those that do not fit, which are lost.
  pub read_withvector_lem :
      (b : Buffer) (bs : List ℕ)
      → IsValid b
      → b.offset + b.length + length bs ≤ 2 ^ 62
      → (rc : ℤ) × (r : Buffer) × (read_withvector junk allocated b (some bs) ≡ some (rc, r))
        × Received b bs allocated rc r
  unfolding read_withvector
  read_withvector_lem b bs v small = elim (dec_lt (left b) (length bs)) [
    | yes lt ↦
        let (rc, r, run, received) = spilled b bs v small lt in
        (rc, r, rw (lt→ltb (left b) (length bs) lt) run, received)
    | no fits ↦
        let room = left_lem b v in
        let (valid, all) = extend_lem b bs v (omega arith) in
        (
          pos (length bs),
          extend b bs,
          ground arith,
          record { valid = valid; outcome = inl (refl, all) },
        )
  ]

-- The answer of FIONREAD is never used: whatever is available, and whatever ioctl() answers, a
-- buffer_read() of everything (-1) asks for 64k bytes.
pub request_all : (available : Option ℕ) → request available (negsuc 0) ≡ max_buffer_length
unfolding request fionread
request_all available = ground arith

-- ===== src/Buffer/Bytes.antt =====
-- The valid bytes of a buffer (src/message.c) under a copy into its block.
use libevlite.Base.{
  ℕ, ◌+◌, ◌^◌, ◌≤◌, ◌≡◌, List, ◌++◌, length, take, drop, arith, length-append, length-take,
  length-drop, append_assoc, take_of_append, drop-take-append,
}
use libevlite.Buffer.Defs.{Buffer, write_at, bytes}

pub record IsValid (b : Buffer) : Type 0 where
  pub stored : length b.store ≡ b.capacity
  pub fits : b.offset + b.length ≤ b.capacity
  pub small : b.capacity ≤ 2 ^ 63

pub length-write_at :
    (store bs : List ℕ) (i : ℕ)
    → i + length bs ≤ length store
    → length (write_at store i bs) ≡ length store
length-write_at store bs i h = omega (
  arith,
  length-append (take i store) (bs ++ drop (i + length bs) store),
  length-append bs (drop (i + length bs) store),
  length-take i store,
  length-drop (i + length bs) store,
)

pub length-bytes : (b : Buffer) → IsValid b → length (bytes b) ≡ b.length
length-bytes b v = omega (
  arith,
  length-take b.length (drop b.offset b.store),
  length-drop b.offset b.store,
  v.stored,
  v.fits,
)

-- A copy behind `l` bytes that start at `o` makes `l + k` bytes of them.
pub slice-write_at :
    (store bs : List ℕ) (o l m n : ℕ)
    → m ≡ o + l
    → n ≡ l + length bs
    → m ≤ length store
    → take n (drop o (write_at store m bs)) ≡ take l (drop o store) ++ bs
slice-write_at store bs o l m n e f h =
    let kept = take l (drop o store) in
    let rest = drop (m + length bs) store in
    let whole : n ≡ length (kept ++ bs) =
      omega (arith, length-append kept bs, length-take l (drop o store), length-drop o store) in
    rw (drop-take-append o l m store (bs ++ rest) e h, ← append_assoc kept bs rest, whole)
      (take_of_append (kept ++ bs) rest)

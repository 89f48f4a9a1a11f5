-- ===== src/Buffer/Defs.antt =====
-- `struct buffer` (src/message.h) and its functions (src/message.c). The pointer `buffer` is its
-- distance `offset` from `orignbuffer`, and `store` is the block that `orignbuffer` points to; NULL
-- is the empty block. What malloc, readv, read, ioctl and recvfrom answer are arguments.
use libevlite.Base.{
  ℕ, zero, suc, ◌+◌, ◌-◌, ◌*◌, ◌%◌, Bool, Option, none, some, List, [], ◌++◌, ltb, leb, ◌==◌,
  if◌then◌else◌, length, take, drop, replicate,
}
use libevlite.Base.Int.{ℤ, pos, negsuc}
use libevlite.Base.Words.{u64_mod, add64, sub64}

abbrev pub min_buffer_length : ℕ
min_buffer_length = 128

abbrev pub max_buffer_length : ℕ
max_buffer_length = 65536

pub record Buffer : Type 0 where
  pub length : ℕ
  pub capacity : ℕ
  pub offset : ℕ
  pub store : List ℕ

-- memcpy() and memmove() of the bytes `bs` to position `i` of a block.
abbrev pub write_at : List ℕ → ℕ → List ℕ → List ℕ
write_at store i bs = take i store ++ (bs ++ drop (i + length bs) store)

-- The valid bytes: buffer_data() and buffer_length().
abbrev pub bytes : Buffer → List ℕ
bytes b = take b.length (drop b.offset b.store)

unfoldable pub init : Buffer
init = record { length = 0; capacity = 0; offset = 0; store = [] }

-- The block `buf` of `n` bytes becomes the buffer; the macro buffer_clear is `set [] 0`.
unfoldable pub set : Buffer → List ℕ → ℕ → Buffer
set b buf n = record { length = n; capacity = n; offset = 0; store = buf }

unfoldable pub align : Buffer → Buffer
align b = record b { store = write_at b.store 0 (bytes b); offset = 0 }

unfoldable pub left : Buffer → ℕ
left b = sub64 (sub64 b.capacity b.offset) b.length

-- `for ( ; newcapacity < needlength; ) newcapacity <<= 1;`, on fuel.
unfoldable pub widen : ℕ → ℕ → ℕ → Option ℕ
widen zero need cap = none
widen (suc fuel) need cap =
    let rest = widen fuel need ((cap * 2) % u64_mod) in if ltb cap need then rest else some cap

-- The fuel that is enough for every length up to 2 ^ 63.
abbrev pub fuel : ℕ
fuel = 64

abbrev pub at_least_min : ℕ → ℕ
at_least_min cap = if ltb cap min_buffer_length then min_buffer_length else cap

-- realloc() keeps the old bytes; the new ones hold anything, here `junk`.
unfoldable pub reallocate : ℕ → Bool → ℕ → Buffer → ℤ × Buffer
reallocate junk allocated n b =
    if allocated
    then (
      pos 0,
      record {
        length = b.length;
        capacity = n;
        offset = 0;
        store = b.store ++ replicate (n - b.capacity) junk;
      },
    )
    else (negsuc 0, b)

module _ (junk : ℕ) (allocated : Bool) where
  -- `none` is a loop that does not end.
  unfoldable pub expand : Buffer → ℕ → Option (ℤ × Buffer)
  unfolding align reallocate
  expand b n =
      let need = add64 (add64 b.offset b.length) n in
      if leb need b.capacity
      then some (pos 0, b)
      else if leb n (sub64 b.capacity b.length)
      then some (pos 0, align b)
      else elim (widen fuel need (at_least_min b.capacity)) [
        | none ↦ none
        | some cap ↦ some (reallocate junk allocated cap (if b.offset == 0 then b else align b))
      ]

-- The copy behind the valid bytes.
unfoldable pub extend : Buffer → List ℕ → Buffer
extend b bs = record b {
  length = add64 b.length (length bs);
  store = write_at b.store (b.offset + b.length) bs;
}

unfoldable pub append_expanded : List ℕ → ℤ × Buffer → ℤ × Buffer
unfolding extend
append_expanded bs (pos rc, b) = (pos 0, extend b bs)
append_expanded bs (negsuc zero, b) = (negsuc 0, b)
append_expanded bs (negsuc (suc rc), b) = (pos 0, extend b bs)

module _ (junk : ℕ) (allocated : Bool) where
  unfoldable pub append : Buffer → List ℕ → Option (ℤ × Buffer)
  unfolding expand extend append_expanded
  append b bs =
      let need = add64 (add64 b.offset b.length) (length bs) in
      if ltb b.capacity need
      then elim (expand junk allocated b (length bs)) [
        | none ↦ none
        | some r ↦ some (append_expanded bs r)
      ]
      else some (pos 0, extend b bs)

  unfoldable pub append2 : Buffer → Buffer → Option (ℤ × Buffer)
  unfolding append
  append2 b other = append b (bytes other)

  unfoldable pub reserve : Buffer → ℕ → Option (ℤ × Buffer)
  unfolding expand
  reserve b n = expand junk allocated b n

unfoldable pub erase : Buffer → ℕ → Buffer
erase b n =
    if leb b.length n
    then record b { length = 0; offset = 0 }
    else record b { offset = b.offset + n; length = b.length - n }

-- The bytes copied out, their number, and the buffer.
unfoldable pub take_out : Buffer → ℕ → List ℕ × ℕ × Buffer
unfolding erase
take_out b n = let k = if ltb b.length n then b.length else n in (take k (bytes b), k, erase b k)

unfoldable pub swap : Buffer → Buffer → Buffer × Buffer
swap a b = (b, a)

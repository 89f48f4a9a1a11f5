-- ===== src/Queue/Defs.antt =====
-- The functions of QUEUE_GENERATE (src/queue.h), over any element type. `null` stands for the
-- all-zero element that calloc() writes; the answer of each allocation is an argument.
use Prim.Native.Nat.{bit_and}
use libevlite.Base.{
  ℕ, zero, suc, ◌-◌, ◌*◌, ◌%◌, Bool, true, false, ◌||◌, not, Option, none, some, List, [], ◌∷◌,
  ◌++◌, ltb, leb, ◌==◌, if◌then◌else◌, get_or, set, take, drop, replicate, min,
}
use libevlite.Base.Int.{ℤ, pos, negsuc}
use libevlite.Base.Words.{u32_mod, add32, sub32}

-- An array of no element stands for the NULL of QUEUE_CLEAR.
pub record Queue {ℓ} (A : Type ℓ) : Type ℓ where
  pub size : ℕ
  pub entries : List A
  pub head : ℕ
  pub tail : ℕ

-- The low bits of a counter: `x & (size - 1)`.
abbrev pub slot : ℕ → ℕ → ℕ
slot size x = bit_and x (size - 1)

module _ {ℓ} {A : Type ℓ} where
  unfoldable pub count : Queue A → ℕ
  count q = sub32 q.tail q.head

  -- An answer `none` is the failed assertion that the size is a power of two.
  unfoldable pub init : A → Bool → ℕ → Option (ℤ × Queue A)
  init null allocated size =
      let n = if size == 0 then 8 else size in
      if bit_and n (n - 1) == 0
      then some (
        if allocated then pos 0 else negsuc 0,
        record {
          size = n;
          entries = if allocated then replicate n null else [];
          head = 0;
          tail = 0;
        },
      )
      else none

  -- What the two memcpy() calls copy: from the head to the end of the array, then from its beginning.
  unfoldable pub copied : Queue A → List A
  unfolding count
  copied q =
      let start = slot q.size q.head in
      let len = min (q.size - start) (count q) in
      take len (drop start q.entries) ++ take (count q - len) q.entries

  unfoldable pub grow : A → Bool → Queue A → ℤ × Queue A
  unfolding count copied
  grow null allocated q =
      let newsize = (q.size * 2) % u32_mod in
      if allocated
      then (
        pos 0,
        record {
          size = newsize;
          entries = copied q ++ replicate (newsize - count q) null;
          head = 0;
          tail = count q;
        },
      )
      else (negsuc 0, q)

  -- The write of the element and the step of the counter.
  unfoldable pub put : A → Queue A → Queue A
  put x q = record q { entries = set q.entries (slot q.size q.tail) x; tail = add32 q.tail 1 }

  unfoldable pub push_grown : A → ℤ × Queue A → ℤ × Queue A
  unfolding put
  push_grown x (pos zero, q) = (pos 0, put x q)
  push_grown x (pos (suc rc), q) = (negsuc 0, q)
  push_grown x (negsuc rc, q) = (negsuc 0, q)

  unfoldable pub push : A → Bool → Queue A → A → ℤ × Queue A
  unfolding grow put push_grown
  push null allocated q x =
      if sub32 (add32 q.size q.head) q.tail == 0
      then push_grown x (grow null allocated q)
      else (pos 0, put x q)

  -- The result, what is stored through `data`, and the queue.
  unfoldable pub pop : A → Queue A → ℤ × Option A × Queue A
  unfolding count
  pop null q =
      if ltb 0 (count q)
      then (
        pos 1,
        some (get_or q.entries (slot q.size q.head) null),
        record q { head = add32 q.head 1 },
      )
      else (pos 0, none, q)

  unfoldable pub get : A → Queue A → ℕ → ℤ × Option A
  unfolding count
  get null q index =
      if ltb index (count q)
      then (pos 0, some (get_or q.entries (slot q.size (add32 q.head index)) null))
      else (negsuc 0, none)

  unfoldable pub top : A → Queue A → ℤ × Option A
  unfolding get
  top null q = get null q 0

  unfoldable pub swap : Queue A → Queue A → Queue A × Queue A
  swap a b = (
    record { size = b.size; entries = b.entries; head = b.head; tail = b.tail },
    record { size = a.size; entries = a.entries; head = a.head; tail = a.tail },
  )

  unfoldable pub clear : Queue A → Queue A
  clear q = record { size = 0; entries = []; head = 0; tail = 0 }

  unfoldable pub is_null : List A → Bool
  is_null [] = true
  is_null (x ∷ xs) = false

  -- realloc() of the array keeps its first `size` elements.
  unfoldable pub shrink : Bool → Queue A → ℕ → ℕ × Queue A
  unfolding count is_null
  shrink allocated q size =
      if is_null q.entries || leb q.size size || not (count q == 0)
      then (q.size, q)
      else if allocated
      then (size, record { size = size; entries = take size q.entries; head = 0; tail = 0 })
      else (q.size, q)

  unfoldable pub reset : Queue A → Queue A
  reset q = record q { head = 0; tail = 0 }

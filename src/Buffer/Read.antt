-- ===== src/Buffer/Read.antt =====
-- The reads of src/message.c: _read_withvector, _read_withsize, buffer_readv, buffer_read and
-- buffer_receive. What the kernel answers is an argument: `none` for -1, else the bytes delivered;
-- of no byte, the copy writes nothing.
use libevlite.Base.{
  ℕ, zero, suc, ◌+◌, ◌-◌, ◌%◌, ◌^◌, Bool, Option, none, some, List, ltb, ◌&&◌, if◌then◌else◌,
  length, take, drop,
}
use libevlite.Base.Int.{ℤ, pos, negsuc}
use libevlite.Base.Words.{u64_mod, sub64}
use libevlite.Buffer.Defs.{Buffer, max_buffer_length, left, extend, expand, append}

-- The bytes that one readv() may deliver: the free tail of the block, and with it the 64k array
-- `extra` on the stack if the tail is smaller than that.
unfoldable pub vector_room : Buffer → ℕ
unfolding left
vector_room b = if ltb (left b) max_buffer_length then left b + max_buffer_length else left b

-- What lay in `extra` goes behind the tail; a failed append is -2.
unfoldable pub spill : ℕ → Option (ℤ × Buffer) → Option (ℤ × Buffer)
spill n none = none
spill n (some (pos zero, b)) = some (pos n, b)
spill n (some (pos (suc rc), b)) = some (negsuc 1, b)
spill n (some (negsuc rc, b)) = some (negsuc 1, b)

module _ (junk : ℕ) (allocated : Bool) where
  unfoldable pub read_withvector : Buffer → Option (List ℕ) → Option (ℤ × Buffer)
  unfolding left extend append spill
  read_withvector b none = some (negsuc 0, b)
  read_withvector b (some bs) =
      if ltb (left b) (length bs)
      then spill (length bs)
          (append junk allocated (extend b (take (left b) bs)) (drop (left b) bs))
      else some (pos (length bs), extend b bs)

  unfoldable pub readv : Buffer → Option (List ℕ) → Option (ℤ × Buffer)
  unfolding read_withvector
  readv b r = read_withvector b r

-- After _expand(), read() or recvfrom() of at most `n` bytes behind the valid ones.
unfoldable pub read_expanded : ℕ → (ℕ → Option (List ℕ)) → Option (ℤ × Buffer) → Option (ℤ × Buffer)
unfolding extend
read_expanded n kernel none = none
read_expanded n kernel (some (pos zero, b)) = elim (kernel n) [
  | none ↦ some (negsuc 0, b)
  | some bs ↦ some (pos (length bs), extend b bs)
]
read_expanded n kernel (some (pos (suc rc), b)) = some (negsuc 1, b)
read_expanded n kernel (some (negsuc rc, b)) = some (negsuc 1, b)

-- `ssize_t nread = -1; ioctl( fd, FIONREAD, &nread )`: the kernel stores a 32-bit int, so on a
-- little-endian machine the upper half of the 64-bit variable keeps its ones.
unfoldable pub fionread : ℕ → ℕ
fionread count = (u64_mod - 2 ^ 32) + count % 2 ^ 32

-- `nread > 0` on the bit pattern of a ssize_t.
abbrev pub positive64 : ℕ → Bool
positive64 w = ltb 0 w && ltb w (2 ^ 63)

-- The length that _read_withsize() asks for, as a size_t: -1 asks for what is available. The answer of ioctl() is `none` for -1.
unfoldable pub request : Option ℕ → ℤ → ℕ
unfolding fionread
request available (pos n) = n
request available (negsuc (suc k)) = sub64 0 (k + 2)
request none (negsuc zero) = max_buffer_length
request (some count) (negsuc zero) =
    if positive64 (fionread count) then fionread count else max_buffer_length

module _ (junk : ℕ) (allocated : Bool) where
  unfoldable pub read_withsize : Buffer → Option ℕ → ℤ → (ℕ → Option (List ℕ)) → Option (ℤ × Buffer)
  unfolding request read_expanded expand
  read_withsize b available nbytes kernel =
      let n = request available nbytes in read_expanded n kernel (expand junk allocated b n)

  -- `vector` answers the readv(), `kernel` the read().
  unfoldable pub read :
      Buffer → Option ℕ → ℤ → Option (List ℕ) → (ℕ → Option (List ℕ)) → Option (ℤ × Buffer)
  unfolding read_withvector read_withsize
  read b available (pos zero) vector kernel = read_withvector junk allocated b vector
  read b available (pos (suc n)) vector kernel = read_withsize b available (pos (suc n)) kernel
  read b available (negsuc n) vector kernel = read_withsize b available (negsuc n) kernel

  unfoldable pub receive : Buffer → (ℕ → Option (List ℕ)) → Option (ℤ × Buffer)
  unfolding expand read_expanded
  receive b kernel =
      read_expanded max_buffer_length kernel (expand junk allocated b max_buffer_length)

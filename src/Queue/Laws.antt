-- ===== src/Queue/Laws.antt =====
-- The representation invariant of the ring queue (src/queue.h), the elements that it holds, and
-- the two writes, the element put behind the last one and the larger array of QUEUE_GROW.
use native.Mathlib.Nat.{pow-suc, zero-mod}
use libevlite.Base.{
  ℕ, suc, ◌+◌, ◌-◌, ◌*◌, ◌%◌, ◌^◌, ◌≤◌, ◌<◌, ◌≡◌, ◌↔◌, refl, sym, ap, ◌∙◌, List, [], ◌∷◌, ◌++◌,
  length, take, drop, replicate, min, arith, dec_lt, append-nil, take_of_append, length-set,
  length-append, length-replicate, true, ◌==◌,
}
use libevlite.Base.Words.{u32_mod, add32, sub32}
use libevlite.Base.Bits.{bit_and-mask, pow_pos, mod_mod_pow, pow_mono}
use libevlite.Queue.Defs.{Queue, slot, count, copied, grow, put}
use libevlite.Queue.Window.{window, length-window, window-slices, window-set}

abbrev pub IsPowerOfTwo : ℕ → Type 0
IsPowerOfTwo n = (k : ℕ) × (k ≤ 31) × (n ≡ 2 ^ k)

pub slot-mod : {size : ℕ} (x : ℕ) → IsPowerOfTwo size → slot size x ≡ x % size
slot-mod x (k, _, e) = rw e (bit_and-mask x k)

pub wrap-mod : {size : ℕ} (x : ℕ) → IsPowerOfTwo size → x % u32_mod % size ≡ x % size
wrap-mod x (k, h, e) = rw e (mod_mod_pow x k 32 (omega arith))

pub power_pos : {size : ℕ} → IsPowerOfTwo size → 0 < size
power_pos (k, h, e) = rw e (pow_pos k)

pub power-le : {size : ℕ} → IsPowerOfTwo size → size ≤ 2 ^ 31
power-le (k, h, e) = rw e (pow_mono k 31 h)

pub power_double : {size : ℕ} → IsPowerOfTwo size → size < 2 ^ 31 → IsPowerOfTwo (size * 2)
power_double {size} (k, h, e) lt = elim (dec_lt k 31) [
  | yes p ↦ (suc k, p, rw e (sym (pow-suc 2 k)))
  | no p ↦
      let top : k ≡ 31 = omega arith in
      let full : size ≡ 2 ^ 31 = e ∙ ap (λ i. 2 ^ i) top in absurd (omega arith)
]

pub count_step :
    (t h : ℕ)
    → t < u32_mod
    → h < u32_mod
    → sub32 t h < 2 ^ 32 - 1
    → sub32 (add32 t 1) h ≡ suc (sub32 t h)
count_step t h p q lt = omega arith

pub count_back : (t h : ℕ) → t < u32_mod → h < u32_mod → add32 h (sub32 t h) ≡ t
count_back t h p q = omega arith

pub record IsValid {ℓ} {A : Type ℓ} (q : Queue A) : Type 0 where
  pub power : IsPowerOfTwo q.size
  pub stored : length q.entries ≡ q.size
  pub head_word : q.head < u32_mod
  pub tail_word : q.tail < u32_mod
  pub fits : sub32 q.tail q.head ≤ q.size

module _ {ℓ} {A : Type ℓ} (null : A) where
  -- The elements in the queue, oldest first.
  unfoldable pub contents : Queue A → List A
  contents q = window null q.entries q.size q.head (sub32 q.tail q.head)

  pub length-contents : (q : Queue A) → length (contents q) ≡ count q
  unfolding contents count
  length-contents q = length-window null q.entries q.size q.head (sub32 q.tail q.head)

  pub put-IsValid : (q : Queue A) (x : A) → IsValid q → count q < q.size → IsValid (put x q)
  unfolding put count
  put-IsValid q x v lt =
      let small = power-le v.power in
      record {
        power = v.power;
        stored = length-set q.entries (slot q.size q.tail) x ∙ v.stored;
        head_word = v.head_word;
        tail_word = omega arith;
        fits = omega (arith, count_step q.tail q.head);
      }

  -- The slot that `put` writes is the one behind the last element.
  tail-slot :
      (q : Queue A) → IsValid q → slot q.size q.tail ≡ (q.head + sub32 q.tail q.head) % q.size
  tail-slot q v =
      slot-mod q.tail v.power
      ∙ ap (λ t. t % q.size) (sym (count_back q.tail q.head v.tail_word v.head_word))
      ∙ wrap-mod (q.head + sub32 q.tail q.head) v.power

  pub contents-put :
      (q : Queue A) (x : A)
      → IsValid q
      → count q < q.size
      → contents (put x q) ≡ contents q ++ x ∷ []
  unfolding put count contents
  contents-put q x v lt =
      let small = power-le v.power in
      rw (count_step q.tail q.head v.tail_word v.head_word (omega arith)) (
        window-set null q.entries q.size q.head (sub32 q.tail q.head) (slot q.size q.tail) x
          v.stored lt (tail-slot q v))

  -- A queue with `tail - head == size` is full: that is what the wrapped test of QUEUE_PUSH finds.
  pub full_test :
      (q : Queue A)
      → IsValid q
      → ((sub32 (add32 q.size q.head) q.tail == 0) ≡ true) ↔ (count q ≡ q.size)
  unfolding count
  full_test q v = let small = power-le v.power in ground arith

  -- The copy of QUEUE_GROW puts the elements in order, also when the ring wraps round.
  copied-contents : (q : Queue A) → IsValid q → copied q ≡ contents q
  unfolding copied count contents
  copied-contents q v =
      let n = sub32 q.tail q.head in
      let start = slot-mod q.head v.power in
      sym (
        window-slices null q.entries q.size q.head n (min (q.size - q.head % q.size) n) v.stored
          v.fits (power_pos v.power) refl
        ∙ ap
            (λ i.
              take (min (q.size - i) n) (drop i q.entries)
              ++ take (n - min (q.size - i) n) q.entries)
            (sym start))

  length-copied : (q : Queue A) → IsValid q → length (copied q) ≡ count q
  length-copied q v = ap length (copied-contents q v) ∙ length-contents q

  pub grow-IsValid : (q : Queue A) → IsValid q → q.size < 2 ^ 31 → IsValid (grow null true q).1
  unfolding grow count
  grow-IsValid q v lt =
      let double : q.size * 2 % u32_mod ≡ q.size * 2 = omega arith in
      record {
        power = rw double (power_double v.power lt);
        stored =
            length-append (copied q) (replicate (q.size * 2 % u32_mod - count q) null)
            ∙ omega
                (arith, length-copied q v, length-replicate (q.size * 2 % u32_mod - count q) null);
        head_word = omega arith;
        tail_word = omega arith;
        fits = omega arith;
      }

  -- An array that starts with `xs`, read from 0.
  window-front :
      (xs room : List A) (size : ℕ)
      → 0 < size
      → length (xs ++ room) ≡ size
      → window null (xs ++ room) size 0 (length xs) ≡ xs
  window-front xs room size h e =
      let n = length xs in
      let fits : n ≤ size = omega (arith, e, length-append xs room) in
      let zero_slot : 0 % size ≡ 0 = zero-mod size in
      let whole : min (size - 0 % size) n ≡ n = omega arith in
      let rest : n - n ≡ 0 = omega arith in
      window-slices null (xs ++ room) size 0 n n e fits h (sym whole)
      ∙ rw (rest, zero_slot, append-nil) (take_of_append xs room)

  pub contents-grow :
      (q : Queue A) → IsValid q → q.size < 2 ^ 31 → contents (grow null true q).1 ≡ contents q
  unfolding grow contents
  contents-grow q v lt =
      let g = grow-IsValid q v lt in
      let short : sub32 (count q) 0 ≡ length (copied q) =
        omega (arith, length-copied q v, length-contents q, v.fits, lt) in
      rw short (
        window-front (copied q) (replicate (q.size * 2 % u32_mod - count q) null)
          (q.size * 2 % u32_mod) (power_pos g.power) g.stored
        ∙ copied-contents q v)

  pub count_le : (q : Queue A) → IsValid q → count q ≤ q.size
  unfolding count
  count_le q v = v.fits

  pub count-lt : (q : Queue A) → IsValid q → count q ≤ 2 ^ 31
  count-lt q v = omega (arith, power-le v.power, count_le q v)

  pub room-grow :
      (q : Queue A)
      → IsValid q
      → q.size < 2 ^ 31
      → count (grow null true q).1 < (grow null true q).1.size
  unfolding grow count
  room-grow q v lt = let positive = power_pos v.power in omega (arith, v.fits)

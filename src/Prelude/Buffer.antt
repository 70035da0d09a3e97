-- ===== src/Prelude/Buffer.antt =====
-- Byte memory as a function of the address, with reads and writes of one byte and of 16-bit and
-- 32-bit numbers in network order (`htons`, `ntohs`, `htonl`, `ntohl` and a copy).
use Prim.Native.Nat.{ℕ, zero, suc, ◌+◌, ◌*◌, ◌/◌, ◌%◌, ◌≤◌, ◌<◌}
use mathlib.Core.Path.{◌≡◌, refl, ap, ap₂, ◌∙◌}
use mathlib.Core.Logic.{◌≢◌, ◌⊎◌, inl, inr}
use mathlib.Core.List.{[], ◌∷◌, ◌++◌}
use native.Mathlib.Omega.{arith}
use cdns.Prelude.Tests.{◌==◌, if◌then◌else◌, Bytes}
use cdns.Prelude.Lists.{length, get_or}

abbrev pub Memory : Type 0
Memory = ℕ → ℕ

abbrev pub write : Memory → ℕ → ℕ → Memory
write m i v j = if j == i then v else m j

-- `std::copy` of a list to address `i`.
unfoldable pub write_list : Memory → ℕ → Bytes → Memory
write_list m i [] = m
write_list m i (x ∷ xs) = write_list (write m i x) (i + 1) xs

-- `n` bytes from address `i`.
unfoldable pub slice : Memory → ℕ → ℕ → Bytes
slice m i zero = []
slice m i (suc n) = m i ∷ slice m (i + 1) n

-- A buffer that holds the list, and zeros behind it.
unfoldable pub of_list : Bytes → Memory
of_list xs i = get_or xs i 0

abbrev pub read16 : Memory → ℕ → ℕ
read16 m i = m i * 256 + m (i + 1)

abbrev pub write16 : Memory → ℕ → ℕ → Memory
write16 m i v = write (write m i (v / 256 % 256)) (i + 1) (v % 256)

abbrev pub read32 : Memory → ℕ → ℕ
read32 m i = read16 m i * 65536 + read16 m (i + 2)

abbrev pub write32 : Memory → ℕ → ℕ → Memory
write32 m i v = write16 (write16 m i (v / 65536 % 65536)) (i + 2) (v % 65536)

-- Two memories hold the same bytes below an address.
abbrev pub Agree : ℕ → Memory → Memory → Type 0
Agree n m m' = (i : ℕ) → i < n → m i ≡ m' i

pub write_ne : (m : Memory) (i v j : ℕ) → j ≢ i → write m i v j ≡ m j
write_ne m i v j h = ground arith

pub write_list_below : (m : Memory) (i : ℕ) (xs : Bytes) (j : ℕ) → j < i → write_list m i xs j ≡ m j
unfolding write_list
write_list_below m i [] j h = refl
write_list_below m i (x ∷ xs) j h = ground (arith, write_list_below (write m i x) (i + 1) xs j)

pub slice-ext :
    (m m' : Memory) (i n : ℕ)
    → ((j : ℕ) → i ≤ j → j < i + n → m j ≡ m' j)
    → slice m i n ≡ slice m' i n
unfolding slice
slice-ext m m' i zero h = refl
slice-ext m m' i (suc n) h =
    ap₂ ◌∷◌ (h i (omega arith) (omega arith))
      (slice-ext m m' (i + 1) n (λ j p q. h j (omega arith) (omega arith)))

pub slice-write_ne :
    (m : Memory) (a v i n : ℕ) → (a < i) ⊎ (i + n ≤ a) → slice (write m a v) i n ≡ slice m i n
slice-write_ne m a v i n h = slice-ext _ _ i n (λ j p q. write_ne m a v j (omega arith))

pub length-slice : (m : Memory) (i n : ℕ) → length (slice m i n) ≡ n
unfolding slice
length-slice m i zero = refl
length-slice m i (suc n) = ap suc (length-slice m (i + 1) n)

pub slice-write_list :
    (m : Memory) (i : ℕ) (xs : Bytes) → slice (write_list m i xs) i (length xs) ≡ xs
unfolding slice write_list
slice-write_list m i [] = refl
slice-write_list m i (x ∷ xs) =
    ground (
      arith,
      write_list_below (write m i x) (i + 1) xs i,
      slice-write_list (write m i x) (i + 1) xs,
    )

get_or-slice : (m : Memory) (i n j : ℕ) → j < n → get_or (slice m i n) j 0 ≡ m (i + j)
unfolding slice
get_or-slice m i zero j h = elim h [ ]
get_or-slice m i (suc n) zero h = ap m (omega arith)
get_or-slice m i (suc n) (suc j) h =
    let e : i + 1 + j ≡ i + suc j = omega arith in
    get_or-slice m (i + 1) n j (omega arith) ∙' ap m e
  where
    infixr 30 ◌∙'◌
    ◌∙'◌ : {x y z : ℕ} → x ≡ y → y ≡ z → x ≡ z
    p ∙' q = cc

-- A buffer that is filled from another one agrees with it on what was copied.
pub of_list-slice : (m : Memory) (n : ℕ) → Agree n (of_list (slice m 0 n)) m
unfolding of_list
of_list-slice m n i h = let e : 0 + i ≡ i = omega arith in cc (get_or-slice m 0 n i h, ap m e)

pub slice-append : (m : Memory) (i a b : ℕ) → slice m i (a + b) ≡ slice m i a ++ slice m (i + a) b
unfolding slice
slice-append m i zero b =
    let e : i ≡ i + 0 = omega arith in
    let e' : 0 + b ≡ b = omega arith in cc (ap (λ k. slice m k b) e, ap (slice m i) e')
slice-append m i (suc a) b =
    let e : i + 1 + a ≡ i + suc a = omega arith in
    let e' : suc a + b ≡ suc (a + b) = omega arith in
    rw e' (cc (slice-append m (i + 1) a b, ap (λ k. slice m k b) e))

-- Two runs of bytes in two memories.
pub slice-shift :
    (m o : Memory) (i a n : ℕ)
    → ((j : ℕ) → j < n → m (i + j) ≡ o (a + j))
    → slice m i n ≡ slice o a n
unfolding slice
slice-shift m o i a zero h = refl
slice-shift m o i a (suc n) h = ap₂ ◌∷◌ (cc (h 0 (omega arith), ap m i0, ap o a0)) (
    slice-shift m o (i + 1) (a + 1) n
      (λ j p. cc (h (suc j) (omega arith), ap m (i1 j), ap o (a1 j))))
  where
    i0 : i + 0 ≡ i
    i0 = omega arith

    a0 : a + 0 ≡ a
    a0 = omega arith

    i1 : (j : ℕ) → i + suc j ≡ i + 1 + j
    i1 j = omega arith

    a1 : (j : ℕ) → a + suc j ≡ a + 1 + j
    a1 j = omega arith

pub write_list_above :
    (m : Memory) (i : ℕ) (xs : Bytes) (j : ℕ) → i + length xs ≤ j → write_list m i xs j ≡ m j
unfolding write_list
write_list_above m i [] j h = refl
write_list_above m i (x ∷ xs) j h = ground (arith, write_list_above (write m i x) (i + 1) xs j)

-- What is copied from a run of bytes is that run.
pub write_list-slice :
    (m o : Memory) (i a n j : ℕ) → j < n → write_list m i (slice o a n) (i + j) ≡ o (a + j)
unfolding write_list slice
write_list-slice m o i a zero j h = elim h [ ]
write_list-slice m o i a (suc n) zero h =
    ground (arith, write_list_below (write m i (o a)) (i + 1) (slice o (a + 1) n) (i + 0))
write_list-slice m o i a (suc n) (suc j) h =
    let e : i + suc j ≡ i + 1 + j = omega arith in
    let e' : a + suc j ≡ a + 1 + j = omega arith in
    rw (e, e') (write_list-slice (write m i (o a)) o (i + 1) (a + 1) n j (omega arith))

-- A run of bytes that a copy to another place leaves as it is.
pub slice-write_list_other :
    (m : Memory) (i : ℕ) (xs : Bytes) (a n : ℕ)
    → (a + n ≤ i) ⊎ (i + length xs ≤ a)
    → slice (write_list m i xs) a n ≡ slice m a n
slice-write_list_other m i xs a n (inl before) =
    slice-ext _ _ a n (λ j _ h. write_list_below m i xs j (omega (arith, before)))
slice-write_list_other m i xs a n (inr behind) =
    slice-ext _ _ a n (λ j h _. write_list_above m i xs j (omega (arith, behind)))

pub slice-write_list_at :
    (m : Memory) (i : ℕ) (xs : Bytes) (n : ℕ) → n ≡ length xs → slice (write_list m i xs) i n ≡ xs
slice-write_list_at m i xs n e = ap (slice (write_list m i xs) i) e ∙ slice-write_list m i xs

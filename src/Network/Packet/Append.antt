-- ===== src/Network/Packet/Append.antt =====
-- What `packet::append` leaves in the packet.
use Prim.Native.Nat.{min}
use cdns.Network.Packet.{Packet, IsPacket, contents, append}
use cdns.Prelude.{
  ltb, tests, Bool-cases, Memory, write_list, slice, write_list_below, slice-ext, slice-append,
  slice-shift, write_list-slice, ℕ, ◌+◌, ◌-◌, ◌≤◌, ◌<◌, ◌≡◌, ap, ◌∙◌, inl, inr, ◌++◌, arith,
}

-- The two copies of the branch in which the vector grows, one after the other.
copy_twice :
    (m o : Memory) (i r n k j : ℕ)
    → r ≡ i + n
    → j < n + k
    → write_list (write_list m i (slice o 0 n)) r (slice o n k) (i + j) ≡ o j
copy_twice m o i r n k j e h = elim (Bool-cases (ltb j n)) [
  | inl low ↦
      let lt : j < n = omega tests in
      let z : 0 + j ≡ j = omega arith in
      cc (
        write_list_below (write_list m i (slice o 0 n)) r (slice o n k) (i + j) (omega arith),
        write_list-slice m o i 0 n j lt,
        ap o z,
      )
  | inr high ↦
      let le : n ≤ j = omega tests in
      let at : i + j ≡ r + (j - n) = omega arith in
      let at' : n + (j - n) ≡ j = omega arith in
      cc (
        ap (write_list (write_list m i (slice o 0 n)) r (slice o n k)) at,
        write_list-slice (write_list m i (slice o 0 n)) o r n k (j - n) (omega arith),
        ap o at',
      )
]

module _ (p other : Packet) (vp : IsPacket p) (vo : IsPacket other)
    (room : p.reserved + other.reserved < 65536) where
  append_old : (j : ℕ) → j < p.size → (append other p).bytes j ≡ p.bytes j
  unfolding append
  append_old j h = ground (
    arith,
    write_list_below p.bytes p.reserved (slice other.bytes 0 other.size) j,
    write_list_below p.bytes p.size (slice other.bytes 0 (min (p.reserved - p.size) other.reserved))
        j,
    write_list_below
        (write_list p.bytes p.size (slice other.bytes 0 (min (p.reserved - p.size) other.reserved)))
        p.reserved
        (slice other.bytes (min (p.reserved - p.size) other.reserved)
          (other.reserved - min (p.reserved - p.size) other.reserved))
        j,
  )

  append_new : (j : ℕ) → j < other.size → (append other p).bytes (p.size + j) ≡ other.bytes j
  unfolding append
  append_new j h =
      let sz = min (p.reserved - p.size) other.reserved in
      ground (
        arith,
        write_list-slice p.bytes other.bytes p.size 0 other.size j,
        write_list-slice p.bytes other.bytes p.size 0 sz j,
        copy_twice p.bytes other.bytes p.size p.reserved sz (other.reserved - sz) j,
      )

  append-size : (append other p).size ≡ p.size + other.size
  unfolding append
  append-size = ground arith

  append-IsPacket : IsPacket (append other p)
  unfolding append
  append-IsPacket = ground arith

  -- Of two well-formed packets whose vectors are together below 65536 bytes, appending the second
  -- to the first gives the two messages one after the other, whether the first vector has spare
  -- room or not, and a well-formed packet.
  pub append-contents :
      (contents (append other p) ≡ contents p ++ contents other) × IsPacket (append other p)
  append-contents = (
    rw append-size (
        cc (
          slice-append (append other p).bytes 0 p.size other.size,
          ap (λ k. slice (append other p).bytes k other.size) start,
          slice-ext (append other p).bytes p.bytes 0 p.size (λ j _ h. append_old j (omega arith)),
          slice-shift (append other p).bytes other.bytes p.size 0 other.size
              (λ j h. append_new j h ∙ ap other.bytes (omega arith)),
        )),
    append-IsPacket,
  )
    where
      start : 0 + p.size ≡ p.size
      start = omega arith

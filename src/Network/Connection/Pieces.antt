-- ===== src/Network/Connection/Pieces.antt =====
-- A message on a TCP connection, delivered in pieces.
use Prim.Native.Nat.{min}
use cdns.Dns.Crypt.Certificate.{part}
use cdns.Dns.Question.{no_packet}
use cdns.Network.Connection.{size_bytes, tcp_packet, tcp_send, receive_more, tcp_size, tcp_receive}
use cdns.Network.Packet.{Packet, IsPacket, from_bytes, contents, append}
use cdns.Network.Packet.Append.{append-contents}
use cdns.Prelude.{
  ltb, ◌==◌, Bool-cases, Bytes, write_list, slice, of_list, length-slice, slice-write_list,
  slice-shift, length, drop, get_or, length-append, All, ok, ℕ, suc, ◌+◌, ◌-◌, ◌*◌, ◌/◌, ◌%◌, ◌≤◌,
  ◌<◌, ◌≡◌, refl, sym, ap, ◌∙◌, inl, inr, true, false, some, List, [], ◌∷◌, ◌++◌, append-nil,
  append_assoc, arith,
}

unfoldable pub joined_pieces : List Bytes → Bytes
joined_pieces [] = []
joined_pieces (x ∷ xs) = x ++ joined_pieces xs

receive_more-joined_pieces :
    (pieces : List Bytes) (n : ℕ) (got : Bytes)
    → All (λ x. 0 < length x) pieces
    → length got + length (joined_pieces pieces) ≡ n
    → receive_more pieces n got ≡ ok (got ++ joined_pieces pieces)
unfolding receive_more joined_pieces
receive_more-joined_pieces [] n got h e =
    let f : ltb (length got) n ≡ false = ground (arith, e) in rw f (ap ok (sym (append-nil got)))
receive_more-joined_pieces (x ∷ xs) n got h e =
    let l = length-append x (joined_pieces xs) in
    let l' = length-append got x in
    let f : ltb (length got) n ≡ true = ground (arith, e, l, h.0) in
    let g : (length x == 0) ≡ false = ground (arith, h.0) in
    rw (f, g)
      (receive_more-joined_pieces xs n (got ++ x) h.1 (omega (arith, l, l', e))
        ∙ ap ok (append_assoc got x (joined_pieces xs)))

slice-of_list : (xs : Bytes) → slice (of_list xs) 0 (length xs) ≡ xs
unfolding slice of_list
slice-of_list [] = refl
slice-of_list (x ∷ xs) = ap (◌∷◌ x) (
    slice-shift (of_list (x ∷ xs)) (of_list xs) 1 0 (length xs) (λ j h.
      let e : 1 + j ≡ suc j = omega arith in let e' : 0 + j ≡ j = omega arith in rw (e, e') refl)
    ∙ slice-of_list xs)

append_room :
    (body : Bytes) (m : Packet)
    → m.size ≡ 0
    → 0 < length body
    → length body ≤ m.reserved
    → append (from_bytes body) m ≡ record m {
      size = (m.size + length body) % 65536;
      bytes = write_list m.bytes m.size (slice (of_list body) 0 (length body));
    }
unfolding append from_bytes
append_room body m z some_body room =
    let a : (m.reserved == m.size) ≡ false = ground (arith, z, some_body, room) in
    let b : min (m.reserved - m.size) (length body) ≡ length body = omega (arith, z, room) in
    let c : ltb (length body) (length body) ≡ false = ground arith in rw (append, a, b, c) refl

-- What is put into an empty message with room.
append_empty :
    (body : Bytes) (m : Packet)
    → m.size ≡ 0
    → 0 < length body
    → length body ≤ m.reserved
    → m.reserved < 65536
    → contents (append (from_bytes body) m) ≡ body
append_empty body m z some_body room small =
    let d : (m.size + length body) % 65536 ≡ length body = omega (arith, z, room, small) in
    rw (append_room body m z some_body room, d, slice-of_list body)
      (ap (λ i. slice (write_list m.bytes i body) 0 (length body)) z
        ∙ slice-write_list m.bytes 0 body)

small-IsPacket : (a b : ℕ) → IsPacket (from_bytes (a ∷ b ∷ []))
unfolding from_bytes
small-IsPacket a b = record { fits = omega arith; small = omega arith }

tcp_packet-contents :
    (p : Packet)
    → IsPacket p
    → p.reserved < 65534
    → contents (tcp_packet p) ≡ size_bytes p.size ++ contents p
unfolding tcp_packet append from_bytes slice of_list write_list
tcp_packet-contents p v small =
    let h = from_bytes (size_bytes p.size) in
    let front = append h no_packet in
    let f =
      append-contents no_packet h (record { fits = omega arith; small = omega arith })
        (small-IsPacket (p.size / 256 % 256) (p.size % 256)) (omega arith) in
    let two : front.reserved ≡ 2 = refl in
    (append-contents front p f.1 v (omega (arith, two, small))).0

tcp_send-contents :
    (n : ℕ) (p : Packet) {b : Bytes} → tcp_send (some n) p ≡ ok b → contents (tcp_packet p) ≡ b
unfolding tcp_send
tcp_send-contents n p {b} h = elim (Bool-cases (n == 0)) [
  | inl none_sent ↦ let g = rw (tcp_send, none_sent) at h in cc
  | inr some_sent ↦ elim (Bool-cases ((tcp_packet p).size == n)) [
    | inl whole ↦
        let g : ok (contents (tcp_packet p)) ≡ ok b = rw (tcp_send, some_sent, whole) at h in cc
    | inr part ↦ let g = rw (tcp_send, some_sent, part) at h in cc
  ]
]

-- A packet that is not empty, in a vector of less than 65534 bytes, is sent whole and is received in
-- pieces, the first of two bytes at least and none empty, for an empty message with room for the packet
-- and its size: what is received is the packet's message.
pub tcp_receive-tcp_send :
    (p m : Packet) (n : ℕ) (piece : Bytes) (pieces : List Bytes)
    → IsPacket p
    → 0 < p.size
    → p.reserved < 65534
    → m.size ≡ 0
    → p.size + 2 ≤ m.reserved
    → m.reserved < 65536
    → 2 ≤ length piece
    → All (λ x. 0 < length x) pieces
    → tcp_send (some n) p ≡ ok (piece ++ joined_pieces pieces)
    → (r : Packet) × (tcp_receive (piece ∷ pieces) m ≡ ok r) × (contents r ≡ contents p)
unfolding tcp_receive tcp_size
tcp_receive-tcp_send p m n [] pieces v some_size fits z room small two h sent =
    absurd (omega (arith, two))
tcp_receive-tcp_send p m n (a ∷ []) pieces v some_size fits z room small two h sent =
    absurd (omega (arith, two))
tcp_receive-tcp_send p m n (a ∷ b ∷ piece) pieces v some_size fits z room small two h sent =
    let e = sym (tcp_send-contents n p sent) ∙ tcp_packet-contents p v fits in
    let e0 : a ≡ p.size / 256 % 256 = ap (λ l. get_or l 0 0) e in
    let e1 : b ≡ p.size % 256 = ap (λ l. get_or l 1 0) e in
    let e2 : piece ++ joined_pieces pieces ≡ contents p = ap (drop 2) e in
    let s : a * 256 + b ≡ p.size = omega (arith, e0, e1, v.fits, v.small) in
    let l = length-append piece (joined_pieces pieces) in
    let k : length (piece ++ joined_pieces pieces) ≡ p.size =
      ap length e2 ∙ length-slice p.bytes 0 p.size in
    let g0 : (p.size == 0) ≡ false = ground (arith, some_size) in
    let g1 : ltb 65535 (p.size + 2) ≡ false = ground (arith, v.fits, fits) in
    let g2 : ltb m.reserved (p.size + 2) ≡ false = ground (arith, room) in
    let more =
      receive_more-joined_pieces pieces (p.size + 2) (a ∷ b ∷ piece) h (omega (arith, l, k)) in
    let g3 : (suc (suc (length (piece ++ joined_pieces pieces))) == p.size + 2) ≡ true =
      ground (arith, k) in
    let g4 : (suc (suc (length piece)) == 0) ≡ false = ground arith in
    let g5 : ltb (suc (suc (length piece))) 2 ≡ false = ground arith in
    (
      append (from_bytes (piece ++ joined_pieces pieces)) m,
      rw (g4, g5, s, g0, g1, g2, more, g3) refl,
      append_empty (piece ++ joined_pieces pieces) m z (omega (arith, k, some_size))
            (omega (arith, k, room)) small
          ∙ e2,
    )

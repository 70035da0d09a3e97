-- ===== src/Tests/Connection.antt =====
-- A message of three bytes that arrives in three pieces, and is answered with itself.
use cdns.Network.Connection.{tcp_packet, tcp_send, tcp_receive}
use cdns.Network.Connection.Pieces.{joined_pieces}
use cdns.Network.Incoming.{new_tcp_incoming, tcp_on_receive, tcp_respond}
use cdns.Network.Incoming.Exchange.{IsTransfer, tcp_respond-tcp_on_receive}
use cdns.Network.Packet.{Packet, from_bytes, contents, append}
use cdns.Prelude.{
  Bytes, codes, write_list, slice, of_list, ok, ◌≡◌, refl, true, false, none, some, List, [], ◌∷◌,
  ◌++◌, arith,
}

abbrev three_bytes : Packet
three_bytes = record { size = 3; reserved = 3; bytes = λ i. b'c' }

abbrev no_message : Packet
no_message = record { size = 0; reserved = 100; bytes = λ i. 0 }

abbrev first_piece : Bytes
first_piece = 0 ∷ 3 ∷ []

abbrev other_pieces : List Bytes
other_pieces = codes "c" ∷ codes "cc" ∷ []

three_bytes_sent : tcp_send (some 5) three_bytes ≡ ok (first_piece ++ joined_pieces other_pieces)
unfolding tcp_send tcp_packet append from_bytes slice of_list write_list joined_pieces
three_bytes_sent = refl

three_bytes-IsTransfer : IsTransfer three_bytes no_message 5 first_piece other_pieces
three_bytes-IsTransfer = record {
  valid = record { fits = omega arith; small = omega arith };
  some_size = omega arith;
  fits = omega arith;
  blank = refl;
  room = omega arith;
  small = omega arith;
  two_bytes = omega arith;
  some_bytes = (omega arith, (omega arith, tt));
  whole = three_bytes_sent;
}

tcp_respond-tcp_on_receive_example :
    let i = tcp_on_receive (λ x. none) (first_piece ∷ other_pieces) (new_tcp_incoming no_message) in
    let j = tcp_respond (some 5) three_bytes i.0 in
    (r : Packet) × (r' : Packet) × (i.0.created ≡ r ∷ [])
    × (contents r ≡ contents three_bytes)
    × (i.0.is_active ≡ true)
    × (i.1 ≡ none)
    × (j.0.created ≡ r ∷ [])
    × (j.0.sent ≡ (first_piece ++ joined_pieces other_pieces) ∷ [])
    × (j.0.is_active ≡ false)
    × (j.1 ≡ none)
    × (tcp_receive (first_piece ∷ other_pieces) no_message ≡ ok r')
    × (contents r' ≡ contents three_bytes)
tcp_respond-tcp_on_receive_example =
    tcp_respond-tcp_on_receive (λ x. none) three_bytes no_message 5 first_piece other_pieces
      three_bytes no_message 5 first_piece other_pieces three_bytes-IsTransfer
      three_bytes-IsTransfer (λ x. refl)

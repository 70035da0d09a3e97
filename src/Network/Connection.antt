-- ===== src/Network/Connection.antt =====
-- network/srcz/connection.cpp: messages on a TCP connection, each behind its size. What the system sends
-- and receives is an argument: the result of `send`, or none on failure, and the bytes that each `recv`
-- gives, which are empty where the connection is closed; a failure of `recv` is the end of the list.
pub mod Pieces
use cdns.Dns.Question.{no_packet}
use cdns.Network.Packet.{Packet, from_bytes, contents, append}
use cdns.Prelude.{
  ltb, ◌==◌, if◌then◌else◌, Bytes, length, drop, get_or, Error, short_message, send_failed,
  partly_sent, no_data, zero_length, too_large_message, receive_failed, size_mismatch, Result, err,
  ok, guard, ◌>>=◌, ◌>>◌, ℕ, ◌+◌, ◌*◌, ◌/◌, ◌%◌, Bool, true, false, not, Option, none, some, List,
  [], ◌∷◌, ◌++◌,
}

-- Whether the source throws a `net_error`; the other errors here are `std::runtime_error` and
-- `std::logic_error`.
unfoldable pub is_net_error : Error → Bool
is_net_error send_failed = true
is_net_error no_data = true
is_net_error receive_failed = true
is_net_error e = false

-- `htons` of the size of a message, as its bytes.
abbrev pub size_bytes : ℕ → Bytes
size_bytes n = n / 256 % 256 ∷ n % 256 ∷ []

-- The packet that `tcp_send` sends.
unfoldable pub tcp_packet : Packet → Packet
tcp_packet message = append message (append (from_bytes (size_bytes message.size)) no_packet)

-- `tcp_connection::tcp_send`: the bytes that are sent.
unfoldable pub tcp_send : Option ℕ → Packet → Result Bytes
tcp_send none message = err send_failed
tcp_send (some n) message =
    let q = tcp_packet message in
    if n == 0 then err send_failed else if q.size == n then ok (contents q) else err partly_sent

-- The loop of `tcp_receive`, with the bytes so far.
unfoldable pub receive_more : List Bytes → ℕ → Bytes → Result Bytes
receive_more [] tcp_n got = if ltb (length got) tcp_n then err receive_failed else ok got
receive_more (piece ∷ pieces) tcp_n got =
    let more = receive_more pieces tcp_n (got ++ piece) in
    if not (ltb (length got) tcp_n)
    then ok got
    else if length piece == 0
    then err receive_failed
    else more

-- The size of the message that stands in front of it, and of both.
unfoldable pub tcp_size : ℕ → Bytes → Result ℕ
tcp_size reserved q =
    let msg_size = get_or q 0 0 * 256 + get_or q 1 0 in
    do
      guard (not (msg_size == 0)) zero_length
      guard (not (ltb 65535 (msg_size + 2))) too_large_message
      guard (not (ltb reserved (msg_size + 2))) too_large_message
      ok (msg_size + 2)

-- `tcp_connection::tcp_receive`
unfoldable pub tcp_receive : List Bytes → Packet → Result Packet
tcp_receive [] message = err no_data
tcp_receive (piece ∷ pieces) message = do
  guard (not (length piece == 0)) no_data
  guard (not (ltb (length piece) 2)) short_message
  tcp_n ← tcp_size message.reserved piece
  q ← receive_more pieces tcp_n piece
  guard (length q == tcp_n) size_mismatch
  ok (append (from_bytes (drop 2 q)) message)

-- ===== src/Network/Incoming.antt =====
-- network/incoming.hxx, network/tcp/incoming.hxx, network/udp/incoming.hxx, network/srcz/incoming.cpp, and
-- `make_incoming` in network/srcz/listener.cpp: the request of a client. What the system receives and sends
-- is an argument, as for connections. `new_packet` and the address of the client are left out: the message
-- is given empty, and what is sent goes to the client it came from. Of `create_response`, which calls the
-- responder, the call is recorded; the exception that it throws, if it does, is an argument.
pub mod Exchange
use cdns.Network.Connection.{is_net_error, tcp_send, tcp_receive}
use cdns.Network.Packet.{Packet, contents}
use cdns.Prelude.{
  ◌==◌, if◌then◌else◌, Bytes, Error, send_failed, Result, err, ok, ◌>>=◌, ℕ, Bool, true, false,
  Option, none, some, List, [], ◌∷◌, ◌++◌,
}

-- The message, whether `receive_event_` and the timer are active, the messages for which `create_response`
-- was called, and what was sent.
pub record Incoming : Type 0 where
  pub message : Packet
  pub receives : Bool
  pub is_active : Bool
  pub created : List Packet
  pub sent : List Bytes

-- `tcp::in::in`
unfoldable pub new_tcp_incoming : Packet → Incoming
new_tcp_incoming message = record {
  message = message;
  receives = true;
  is_active = true;
  created = [];
  sent = [];
}

-- `close`, which the timer calls too.
unfoldable pub close_incoming : Incoming → Incoming
close_incoming i = record i { receives = false; is_active = false }

-- `catch (net_error &)`, which closes the request; other exceptions leave.
unfoldable pub caught : Error → Incoming → Incoming × Option Error
caught e i = if is_net_error e then (close_incoming i, none) else (i, some e)

-- `tcp::in::on_receive`: the request, and the exception if one leaves it.
unfoldable pub tcp_on_receive :
    (Packet → Option Error) → List Bytes → Incoming → Incoming × Option Error
tcp_on_receive creates pieces i = elim (tcp_receive pieces i.message) [
  | err e ↦ caught e i
  | ok m ↦
      let j = record i { message = m; receives = false; created = i.created ++ m ∷ [] } in
      elim (creates m) [ none ↦ (j, none) | some e ↦ caught e j ]
]

-- `tcp::in::respond`, in the same way; of a message that is sent in part nothing is recorded.
unfoldable pub tcp_respond : Option ℕ → Packet → Incoming → Incoming × Option Error
tcp_respond n message i = elim (tcp_send n message) [
  | err e ↦ caught e i
  | ok bytes ↦ (close_incoming (record i { sent = i.sent ++ bytes ∷ [] }), none)
]

-- `udp::in::in`, of the message that is received, and `udplistener::make_incoming`, which asks for a
-- response at once; an exception of the constructor leaves both, and one of `create_response` leaves the
-- request in the listener.
unfoldable pub make_udp_incoming :
    (Packet → Option Error) → Result Packet → Result (Incoming × Option Error)
make_udp_incoming creates received = do
  m ← received
  let i : Incoming = record {
    message = m;
    receives = false;
    is_active = true;
    created = m ∷ [];
    sent = [];
  }
  ok (i, creates m)

-- `udp_connection::udp_send_to`
unfoldable pub udp_send_to : Option ℕ → Packet → Result Bytes
udp_send_to none message = err send_failed
udp_send_to (some n) message = if n == 0 then err send_failed else ok (contents message)

-- `udp::in::respond`
unfoldable pub udp_respond : Option ℕ → Packet → Incoming → Incoming × Option Error
udp_respond n message i = elim (udp_send_to n message) [
  | err e ↦ caught e i
  | ok bytes ↦ (close_incoming (record i { sent = i.sent ++ bytes ∷ [] }), none)
]

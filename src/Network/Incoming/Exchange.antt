-- ===== src/Network/Incoming/Exchange.antt =====
-- A query and its answer on a TCP connection.
use cdns.Network.Connection.{tcp_send, tcp_receive}
use cdns.Network.Connection.Pieces.{joined_pieces, tcp_receive-tcp_send}
use cdns.Network.Incoming.{new_tcp_incoming, close_incoming, tcp_on_receive, tcp_respond}
use cdns.Network.Packet.{Packet, IsPacket, contents}
use cdns.Prelude.{
  Bytes, length, All, Error, ok, ℕ, ◌+◌, ◌≤◌, ◌<◌, ◌≡◌, refl, true, false, Option, none, some, List,
  [], ◌∷◌, ◌++◌,
}

-- A packet that is not empty, in a vector of less than 65534 bytes, that is sent whole and arrives in pieces,
-- the first of two bytes at least and none empty, for an empty message with room for it and its size.
pub record IsTransfer (p m : Packet) (n : ℕ) (piece : Bytes) (pieces : List Bytes) : Type 0 where
  pub valid : IsPacket p
  pub some_size : 0 < p.size
  pub fits : p.reserved < 65534
  pub blank : m.size ≡ 0
  pub room : p.size + 2 ≤ m.reserved
  pub small : m.reserved < 65536
  pub two_bytes : 2 ≤ length piece
  pub some_bytes : All (λ x. 0 < length x) pieces
  pub whole : tcp_send (some n) p ≡ ok (piece ++ joined_pieces pieces)

received :
    (p m : Packet) (n : ℕ) (piece : Bytes) (pieces : List Bytes)
    → IsTransfer p m n piece pieces
    → (r : Packet) × (tcp_receive (piece ∷ pieces) m ≡ ok r) × (contents r ≡ contents p)
received p m n piece pieces t =
    tcp_receive-tcp_send p m n piece pieces t.valid t.some_size t.fits t.blank t.room t.small
      t.two_bytes t.some_bytes t.whole

-- A query and an answer that are sent whole and arrive in pieces as records of that kind say, where
-- `create_response` returns: the query is handed over once for a response, as it was sent, and the
-- request stays open; then the answer is sent once, the request is closed, and the client receives the
-- answer as it was given; no exception leaves.
pub tcp_respond-tcp_on_receive :
    (creates : Packet → Option Error) (p m : Packet) (n : ℕ) (piece : Bytes) (pieces : List Bytes)
    (a m' : Packet) (n' : ℕ) (piece' : Bytes) (pieces' : List Bytes)
    → IsTransfer p m n piece pieces
    → IsTransfer a m' n' piece' pieces'
    → ((x : Packet) → creates x ≡ none)
    → let i = tcp_on_receive creates (piece ∷ pieces) (new_tcp_incoming m) in
      let j = tcp_respond (some n') a i.0 in
      (r : Packet) × (r' : Packet) × (i.0.created ≡ r ∷ [])
      × (contents r ≡ contents p)
      × (i.0.is_active ≡ true)
      × (i.1 ≡ none)
      × (j.0.created ≡ r ∷ [])
      × (j.0.sent ≡ (piece' ++ joined_pieces pieces') ∷ [])
      × (j.0.is_active ≡ false)
      × (j.1 ≡ none)
      × (tcp_receive (piece' ∷ pieces') m' ≡ ok r')
      × (contents r' ≡ contents a)
unfolding tcp_on_receive tcp_respond new_tcp_incoming close_incoming
tcp_respond-tcp_on_receive creates p m n piece pieces a m' n' piece' pieces' t t' returns =
    let (r, e, c) = received p m n piece pieces t in
    let (r', e', c') = received a m' n' piece' pieces' t' in
    (
      r,
      r',
      rw (tcp_on_receive, e, returns r) refl,
      c,
      rw (tcp_on_receive, e, returns r) refl,
      rw (tcp_on_receive, e, returns r) refl,
      rw (tcp_respond, t'.whole, tcp_on_receive, e, returns r) refl,
      rw (tcp_respond, t'.whole, tcp_on_receive, e, returns r) refl,
      rw (tcp_respond, t'.whole) refl,
      rw (tcp_respond, t'.whole) refl,
      e',
      c',
    )

-- ===== src/Network/Upstream.antt =====
-- network/upstream.hxx, network/srcz/upstream.cpp and network/srcz/timeout.cpp: a request to a server, in
-- the callbacks of its events. What the socket does is an argument: whether it is connected, and what
-- `send` and `receive` give, their exceptions included. The provider is one that leaves messages as
-- they are. Of `pass_answer_downstream`, which other classes define, the call is recorded; the exception
-- that it throws for a message, if it does, is an argument, and is no `net_error`, which they catch.
pub mod Stages
use cdns.Dns.Header.{mark_servfail}
use cdns.Network.Connection.{is_net_error}
use cdns.Network.Packet.{Packet, set_size, is_dns}
use cdns.Prelude.{
  ltb, ◌==◌, if◌then◌else◌, Error, Result, err, ok, ℕ, ◌+◌, Bool, true, false, not, ◌&&◌, Option,
  none, some, List, [], ◌∷◌, ◌++◌,
}

-- `is_connected`, which throws where the connection has failed.
pub data Connection : Type 0 where
  connected connecting not_connected : Connection

-- The message, which events are active (`event_send_`, `event_` and the timer), the failures of the
-- provider, and the messages for which `pass_answer_downstream` was called.
pub record Upstream : Type 0 where
  pub question : Packet
  pub sends : Bool
  pub receives : Bool
  pub is_active : Bool
  pub failures : ℕ
  pub passed : List Packet

-- The constructors, where the connection can be started.
unfoldable pub new_upstream : Packet → ℕ → Upstream
new_upstream pkt failures = record {
  question = pkt;
  sends = true;
  receives = false;
  is_active = true;
  failures = failures;
  passed = [];
}

-- `upstream::close`, which the timer calls too.
unfoldable pub close_upstream : Upstream → Upstream
close_upstream u = record u { sends = false; receives = false; is_active = false }

-- `upstream::pass_failure_downstream`: the request, and the exception if one leaves it.
unfoldable pub pass_failure_downstream :
    (Packet → Option Error) → Upstream → Upstream × Option Error
pass_failure_downstream down u =
    let marked = mark_servfail u.question in
    if ltb 0 u.question.size && is_dns u.question
    then (
      record (close_upstream u) {
        question = marked;
        failures = u.failures + 1;
        passed = u.passed ++ marked ∷ [];
      },
      down marked,
    )
    else (close_upstream u, none)

-- A question of size 0 has been sent; an exception skips this.
unfoldable pub start_receiving : Upstream × Option Error → Upstream × Option Error
start_receiving (u, some e) = (u, some e)
start_receiving (u, none) =
    if u.question.size == 0 then (record u { receives = true; sends = false }, none) else (u, none)

-- The part of `on_send` on a connected socket, with what `send` gives: a `net_error` is caught, another
-- exception leaves.
unfoldable pub send_question :
    (Packet → Option Error) → Result (Unit {0}) → Upstream → Upstream × Option Error
send_question down tried u =
    if not (ltb 0 u.question.size) then (record u { sends = false }, none) else elim tried [
      | ok done ↦ start_receiving (record u { question = set_size 0 u.question }, none)
      | err e ↦
          if is_net_error e then start_receiving (pass_failure_downstream down u) else (u, some e)
    ]

-- `upstream::on_send`
unfoldable pub on_send :
    (Packet → Option Error) → Connection → Result (Unit {0}) → Upstream → Upstream × Option Error
on_send down connected tried u = send_question down tried u
on_send down connecting tried u = (u, none)
on_send down not_connected tried u = pass_failure_downstream down u

-- The part of `on_receive` on a connected socket, with what `receive` gives.
unfoldable pub receive_answer :
    (Packet → Option Error) → Result Packet → Upstream → Upstream × Option Error
receive_answer down (err e) u =
    let cleared = record u { question = set_size 0 u.question } in
    if is_net_error e then pass_failure_downstream down cleared else (cleared, some e)
receive_answer down (ok message) u = (
  record (close_upstream u) { question = message; passed = u.passed ++ message ∷ [] },
  down message,
)

-- `upstream::on_receive`
unfoldable pub on_receive :
    (Packet → Option Error) → Connection → Result Packet → Upstream → Upstream × Option Error
on_receive down connected received u = receive_answer down received u
on_receive down connecting received u = (u, none)
on_receive down not_connected received u = pass_failure_downstream down u

-- ===== src/Tests/Upstream.antt =====
-- A request to a server that is sent, and to which nothing comes, or a reply of one byte.
use cdns.Network.Packet.{Packet}
use cdns.Network.Upstream.{
  connected, Upstream, new_upstream, start_receiving, send_question, on_send, on_receive,
}
use cdns.Network.Upstream.Stages.{
  may_send, may_receive, Runs, fresh, runs_on, Advances, Runs-Advances, Unreceived, Runs-unanswered,
}
use cdns.Prelude.{
  ◌==◌, if◌then◌else◌, Error, short_message, receive_failed, err, ok, refl, Option, none, arith,
}

abbrev question_packet : Packet
question_packet = record { size = 20; reserved = 20; bytes = λ i. if i == 5 then 1 else 0 }

-- `pass_answer_downstream` returns.
abbrev returns : Packet → Option Error
returns m = none

abbrev waiting : Upstream
waiting = (on_send returns connected (ok tt) (new_upstream question_packet 3)).0

waiting-Runs : Runs returns question_packet 3 waiting
unfolding new_upstream
waiting-Runs = runs_on fresh (may_send connected (ok tt) refl)

Runs-Advances_example :
    Advances question_packet waiting (on_receive returns connected (err receive_failed) waiting)
unfolding new_upstream on_send send_question start_receiving
Runs-Advances_example =
    Runs-Advances returns question_packet 3 waiting
      (on_receive returns connected (err receive_failed) waiting) (omega arith) waiting-Runs
      (may_receive connected (err receive_failed) refl)

Runs-unanswered_example :
    Unreceived waiting connected short_message
      (on_receive returns connected (err short_message) waiting)
unfolding new_upstream on_send send_question start_receiving
Runs-unanswered_example =
    Runs-unanswered returns question_packet 3 waiting connected short_message (omega arith)
      waiting-Runs refl (λ e. cc)

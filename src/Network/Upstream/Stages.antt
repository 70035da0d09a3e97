-- ===== src/Network/Upstream/Stages.antt =====
-- The stages of a request to a server.
use cdns.Dns.Header.{set_header, set_rcode, flag, mark_servfail}
use cdns.Network.Connection.{is_net_error}
use cdns.Network.Packet.{Packet, set_size, is_dns}
use cdns.Network.Upstream.{
  Connection, connected, connecting, not_connected, Upstream, new_upstream, close_upstream,
  pass_failure_downstream, start_receiving, send_question, on_send, receive_answer, on_receive,
}
use cdns.Prelude.{
  ltb, ◌==◌, if◌then◌else◌, Bool-cases, length, Error, Result, err, ok, ℕ, ◌≤◌, ◌<◌, ◌≡◌, refl, sym,
  ap, ◌∙◌, ◌≢◌, ◌⊎◌, inl, inr, true, false, ◌&&◌, Option, none, some, [], arith,
}

-- A callback of an event that is active: the request behind it, and the exception if one leaves it.
pub data Callback (down : Packet → Option Error) : Upstream → Upstream × Option Error → Type 0 where
  may_send :
      {u : Upstream} (c : Connection) (tried : Result (Unit {0}))
      → u.sends ≡ true
      → Callback down u (on_send down c tried u)
  may_receive :
      {u : Upstream} (c : Connection) (received : Result Packet)
      → u.receives ≡ true
      → Callback down u (on_receive down c received u)
  expires : {u : Upstream} → u.is_active ≡ true → Callback down u (close_upstream u, none)

pub data Runs (down : Packet → Option Error) (pkt : Packet) (failures : ℕ) : Upstream → Type 0 where
  fresh : Runs down pkt failures (new_upstream pkt failures)
  runs_on :
      {u : Upstream} {x : Upstream × Option Error}
      → Runs down pkt failures u
      → Callback down u x
      → Runs down pkt failures x.0

-- To send the question; to wait for the answer, with the question cleared; or closed, with at most one
-- message passed on.
pub data Stage (pkt : Packet) (u : Upstream) : Type 0 where
  to_send :
      u.question ≡ pkt
      → u.sends ≡ true
      → u.receives ≡ false
      → u.is_active ≡ true
      → u.passed ≡ []
      → Stage pkt u
  to_receive :
      u.question ≡ set_size 0 pkt
      → u.sends ≡ false
      → u.receives ≡ true
      → u.is_active ≡ true
      → u.passed ≡ []
      → Stage pkt u
  is_over :
      u.sends ≡ false → u.receives ≡ false → u.is_active ≡ false → length u.passed ≤ 1 → Stage pkt u

-- What is left to happen: two callbacks, one, or none.
pub stage_rank : Upstream → ℕ
stage_rank u = if u.sends then 2 else if u.receives then 1 else 0

-- A callback leaves the request as it is, or brings it nearer to its end, with an exception only where a
-- message was passed on.
abbrev pub Advances : Packet → Upstream → Upstream × Option Error → Type 0
Advances pkt u x =
    Stage pkt x.0
    × ((x.0 ≡ u) ⊎ ((stage_rank x.0 < stage_rank u) × ((x.1 ≡ none) ⊎ (length x.0.passed ≡ 1))))

size-pass_failure_downstream :
    (down : Packet → Option Error) (u : Upstream)
    → (pass_failure_downstream down u).0.question.size ≡ u.question.size
unfolding pass_failure_downstream close_upstream mark_servfail flag set_rcode set_header
size-pass_failure_downstream down u =
    elim (Bool-cases (ltb 0 u.question.size && is_dns u.question)) [
      | inl answers ↦ rw (pass_failure_downstream, answers) refl
      | inr silent ↦ rw (pass_failure_downstream, silent) refl
    ]

-- With a question that is not empty receiving is not started.
start_receiving-filled :
    (x : Upstream × Option Error) → (x.0.question.size == 0) ≡ false → start_receiving x ≡ x
unfolding start_receiving
start_receiving-filled (u, none) h = rw h refl
start_receiving-filled (u, some e) h = refl

-- Clearing a question that is cleared changes nothing.
cleared_again :
    (pkt : Packet) (u : Upstream)
    → u.question ≡ set_size 0 pkt
    → record u { question = set_size 0 u.question } ≡ u
cleared_again pkt u q =
    let same : set_size 0 u.question ≡ u.question = ap (set_size 0) q ∙ sym q in
    ap (λ x. record u { question = x }) same

module _ (down : Packet → Option Error) (pkt : Packet) (filled : 0 < pkt.size) where
  -- A request that is closed, with what it passed on.
  over-Advances :
      (u : Upstream) (x : Upstream × Option Error)
      → x.0.sends ≡ false
      → x.0.receives ≡ false
      → x.0.is_active ≡ false
      → length x.0.passed ≤ 1
      → (x.1 ≡ none) ⊎ (length x.0.passed ≡ 1)
      → 0 < stage_rank u
      → Advances pkt u x
  unfolding stage_rank
  over-Advances u x s r t one e lt = (is_over s r t one, inr (rw (s, r) lt, e))

  failure-Advances :
      (u w : Upstream)
      → w.passed ≡ []
      → 0 < stage_rank u
      → Advances pkt u (pass_failure_downstream down w)
  unfolding pass_failure_downstream close_upstream
  failure-Advances u w e lt = elim (Bool-cases (ltb 0 w.question.size && is_dns w.question)) [
    | inl answers ↦
        rw (pass_failure_downstream, answers, e)
          (over-Advances u _ refl refl refl (omega arith) (inr refl) lt)
    | inr silent ↦
        let n : length w.passed ≡ 0 = rw e refl in
        rw (pass_failure_downstream, silent)
          (over-Advances u _ refl refl refl (omega (arith, n)) (inl refl) lt)
  ]

  send-Advances :
      (tried : Result (Unit {0})) (u : Upstream)
      → u.question ≡ pkt
      → u.sends ≡ true
      → u.receives ≡ false
      → u.is_active ≡ true
      → u.passed ≡ []
      → Advances pkt u (send_question down tried u)
  unfolding send_question start_receiving stage_rank
  send-Advances (ok done) u q s r t e =
      let f : ltb 0 u.question.size ≡ true = rw q (ground (arith, filled)) in
      rw (send_question, f)
        (to_receive (ap (set_size 0) q) refl refl t e, inr (rw s (omega arith), inl refl))
  send-Advances (err x) u q s r t e =
      let f : ltb 0 u.question.size ≡ true = rw q (ground (arith, filled)) in
      elim (Bool-cases (is_net_error x)) [
        | inr thrown_on ↦ rw (send_question, f, thrown_on) (to_send q s r t e, inl refl)
        | inl net ↦
            let n : ((pass_failure_downstream down u).0.question.size == 0) ≡ false =
              rw (size-pass_failure_downstream down u, q) (ground (arith, filled)) in
            rw (send_question, f, net, start_receiving-filled (pass_failure_downstream down u) n)
              (failure-Advances u u e (rw (stage_rank, s) (omega arith)))
      ]

  receive-Advances :
      (received : Result Packet) (u : Upstream)
      → u.question ≡ set_size 0 pkt
      → u.sends ≡ false
      → u.receives ≡ true
      → u.is_active ≡ true
      → u.passed ≡ []
      → Advances pkt u (receive_answer down received u)
  unfolding receive_answer close_upstream stage_rank
  receive-Advances (err x) u q s r t e = elim (Bool-cases (is_net_error x)) [
    | inl net ↦
        rw (receive_answer, net)
          (failure-Advances u (record u { question = set_size 0 u.question }) e
            (rw (stage_rank, s, r) (omega arith)))
    | inr thrown_on ↦
        let same : record u { question = set_size 0 u.question } ≡ u = cleared_again pkt u q in
        rw (receive_answer, thrown_on) (to_receive (ap (set_size 0) q) s r t e, inl same)
  ]
  receive-Advances (ok m) u q s r t e =
      over-Advances u (receive_answer down (ok m) u) refl refl refl (rw e (omega arith))
        (inr (rw e refl)) (rw (stage_rank, s, r) (omega arith))

  Callback-Advances :
      {u : Upstream} {x : Upstream × Option Error}
      → Stage pkt u
      → Callback down u x
      → Advances pkt u x
  unfolding on_send on_receive close_upstream stage_rank
  Callback-Advances {u} (to_send q s r t e) (may_send connected tried h) =
      send-Advances tried u q s r t e
  Callback-Advances {u} (to_send q s r t e) (may_send connecting tried h) =
      (to_send q s r t e, inl refl)
  Callback-Advances {u} (to_send q s r t e) (may_send not_connected tried h) =
      failure-Advances u u e (rw (stage_rank, s) (omega arith))
  Callback-Advances {u} (to_send q s r t e) (may_receive c m h) = absurd cc
  Callback-Advances {u} (to_send q s r t e) (expires h) =
      over-Advances u (close_upstream u, none) refl refl refl (rw e (omega arith)) (inl refl)
        (rw (stage_rank, s) (omega arith))
  Callback-Advances {u} (to_receive q s r t e) (may_send c tried h) = absurd cc
  Callback-Advances {u} (to_receive q s r t e) (may_receive connected m h) =
      receive-Advances m u q s r t e
  Callback-Advances {u} (to_receive q s r t e) (may_receive connecting m h) =
      (to_receive q s r t e, inl refl)
  Callback-Advances {u} (to_receive q s r t e) (may_receive not_connected m h) =
      failure-Advances u u e (rw (stage_rank, s, r) (omega arith))
  Callback-Advances {u} (to_receive q s r t e) (expires h) =
      over-Advances u (close_upstream u, none) refl refl refl (rw e (omega arith)) (inl refl)
        (rw (stage_rank, s, r) (omega arith))
  Callback-Advances {u} (is_over s r t e) (may_send c tried h) = absurd cc
  Callback-Advances {u} (is_over s r t e) (may_receive c m h) = absurd cc
  Callback-Advances {u} (is_over s r t e) (expires h) = absurd cc

  Runs-Stage : {failures : ℕ} {u : Upstream} → Runs down pkt failures u → Stage pkt u
  unfolding new_upstream
  Runs-Stage fresh = to_send refl refl refl refl refl
  Runs-Stage (runs_on r c) = (Callback-Advances (Runs-Stage r) c).0

-- A request with a question that is not empty, after any sequence of callbacks of its active events, also of
-- those that an exception leaves: the next callback leaves it as it is, as while the socket is being
-- connected and where an exception of `send` or `receive` leaves the callback, or it makes fewer
-- callbacks left that do something, of which there are two at the start, and then an exception leaves it
-- only where it has passed on a message; and it has its question to send, or waits for the answer with
-- the question cleared and the timer active, or is closed and has passed on one message at most.
pub Runs-Advances :
    (down : Packet → Option Error) (pkt : Packet) (failures : ℕ) (u : Upstream)
    (x : Upstream × Option Error)
    → 0 < pkt.size
    → Runs down pkt failures u
    → Callback down u x
    → Advances pkt u x
Runs-Advances down pkt failures u x filled r c =
    Callback-Advances down pkt filled (Runs-Stage down pkt filled r) c

-- What a request that waits for the answer is when no answer could be received: closed, with nothing passed
-- on; or as it was, where `receive` threw an exception that is no `net_error`, which leaves.
abbrev pub Unreceived : Upstream → Connection → Error → Upstream × Option Error → Type 0
Unreceived u c e x =
    (((c ≡ not_connected) ⊎ (is_net_error e ≡ true))
      × (x.0.passed ≡ [])
      × (x.0.is_active ≡ false)
      × (x.1 ≡ none))
    ⊎ ((c ≡ connected) × (is_net_error e ≡ false) × (x ≡ (u, some e)))

-- A request that waits for the answer, after any sequence of callbacks: when the connection has failed, or
-- `receive` throws a `net_error`, it is closed, and nothing is passed on to the client; any other
-- exception of `receive`, as for a reply of one byte, leaves the callback, and the request stays as it was.
pub Runs-unanswered :
    (down : Packet → Option Error) (pkt : Packet) (failures : ℕ) (u : Upstream) (c : Connection)
    (e : Error)
    → 0 < pkt.size
    → Runs down pkt failures u
    → u.receives ≡ true
    → c ≢ connecting
    → Unreceived u c e (on_receive down c (err e) u)
unfolding on_receive receive_answer pass_failure_downstream close_upstream
Runs-unanswered down pkt failures u connected e filled r w c =
    by_stage (Runs-Stage down pkt filled r)
  where
    by_stage : Stage pkt u → Unreceived u connected e (on_receive down connected (err e) u)
    by_stage (to_send q s n t p) = absurd cc
    by_stage (to_receive q s n t p) = elim (Bool-cases (is_net_error e)) [
      | inl net ↦ rw (receive_answer, net) (inl (inr refl, p, refl, refl))
      | inr thrown_on ↦
          rw (receive_answer, thrown_on)
            (inr (refl, refl, ap (λ v. (v, some e)) (cleared_again pkt u q)))
    ]
    by_stage (is_over s n t p) = absurd cc
Runs-unanswered down pkt failures u connecting e filled r w c = absurd (c refl)
Runs-unanswered down pkt failures u not_connected e filled r w c =
    by_stage (Runs-Stage down pkt filled r)
  where
    by_stage : Stage pkt u → Unreceived u not_connected e (on_receive down not_connected (err e) u)
    by_stage (to_send q s n t p) = absurd cc
    by_stage (to_receive q s n t p) =
        let z : u.question.size ≡ 0 = ap (λ p. p.size) q in rw z (inl (inl refl, p, refl, refl))
    by_stage (is_over s n t p) = absurd cc

-- ===== src/Dns/Crypt/Certifier.antt =====
-- dns/crypt/certifier.hxx and dns/crypt/srcz/certifier.cpp: the requests for the certificates of a server.
-- What libev and the network do is an argument: whether the timer's event is pending, whether the last
-- request is active, and whether a request can be made. `timer::set` of libev changes the delay and
-- starts no timer that is stopped.
pub mod Bounds
use cdns.Dns.Answer.{get_txt_answer}
use cdns.Dns.Crypt.Certificate.{Resolver, BeforeNm, find_valid_certificate}
use cdns.Dns.Responder.Counts.{next_step}
use cdns.Network.Packet.{Packet}
use cdns.Prelude.{
  ltb, if◌then◌else◌, Bytes, Error, err, ok, ℕ, ◌+◌, ◌-◌, ◌*◌, ◌/◌, Bool, true, false, ◌&&◌, Option,
  none, some, List,
}

pub record Certifier : Type 0 where
  pub query_retry_step : ℕ
  pub resolver : Resolver
  pub has_upstream : Bool
  pub attempts : ℕ
  pub timer_active : Bool
  pub delay : ℕ

-- The constructor.
unfoldable pub new_certifier : Resolver → Certifier
new_certifier r = record {
  query_retry_step = 0;
  resolver = r;
  has_upstream = false;
  attempts = 0;
  timer_active = true;
  delay = 17;
}

-- `certifier::reschedule_query`
unfoldable pub reschedule_query : Bool → ℕ → Certifier → Certifier
reschedule_query pending query_retry_delay c =
    if pending then c else record c { delay = query_retry_delay }

-- `retry::min_delay + query_retry_step * (retry::max_delay - retry::min_delay) / retry::steps`
abbrev pub failure_delay : ℕ → ℕ
failure_delay step = 17 + step * (300 - 17) / 100

-- `certifier::reschedule_query_after_failure`
unfoldable pub reschedule_query_after_failure : Bool → Certifier → Certifier
reschedule_query_after_failure pending c =
    let step = c.query_retry_step in
    let next_step = if ltb step 100 then step + 1 else step in
    if pending
    then c
    else reschedule_query pending (failure_delay step) (record c { query_retry_step = next_step })

-- `certifier::reschedule_query_after_success`; `jitter` is random.
unfoldable pub reschedule_query_after_success : Bool → ℕ → Certifier → Certifier
reschedule_query_after_success pending jitter c =
    if pending then c else reschedule_query pending (3600 + jitter) c

-- `certifier::process_response`, with the texts of the answer: the certifier, and the exception if one is
-- thrown.
unfoldable pub process_texts :
    BeforeNm
    → (Bytes → Bytes → ℕ × Bytes)
    → ℕ
    → Bool
    → ℕ
    → List Bytes
    → Certifier
    → Certifier × Option Error
process_texts beforenm sign_open now pending jitter texts c =
    let found = find_valid_certificate beforenm sign_open now texts c.resolver in
    let c' = record c { resolver = found.0 } in
    elim found.1 [
      | err e ↦ (c', some e)
      | ok true ↦ (
        record (reschedule_query_after_success pending jitter
            (record c' { query_retry_step = 0 })) { has_upstream = false },
        none,
      )
      | ok false ↦
          (record (reschedule_query_after_failure pending c') { has_upstream = false }, none)
    ]

unfoldable pub process_response :
    BeforeNm
    → (Bytes → Bytes → ℕ × Bytes)
    → ℕ
    → Bool
    → ℕ
    → Packet
    → Certifier
    → Certifier × Option Error
process_response beforenm sign_open now pending jitter q c = elim (get_txt_answer q) [
  | err e ↦ (c, some e)
  | ok texts ↦ process_texts beforenm sign_open now pending jitter texts c
]

-- `certifier::stop`
abbrev pub stop_timer : Certifier → Certifier
stop_timer c = record c { timer_active = false }

-- `certifier::update`: whether the last request is active, whether a new one can be made, and whether the
-- event of the timer is pending.
unfoldable pub update : Bool → Bool → Bool → Certifier → Certifier
update upstream_active made pending c =
    if c.has_upstream && upstream_active
    then c
    else if ltb 4 c.attempts
    then stop_timer (record c { has_upstream = false })
    else if made
    then record c { has_upstream = true; attempts = c.attempts + 1 }
    else reschedule_query_after_failure pending (record c { has_upstream = false })

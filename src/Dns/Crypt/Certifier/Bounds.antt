-- ===== src/Dns/Crypt/Certifier/Bounds.antt =====
-- How often and how many times a certifier asks for certificates.
use cdns.Dns.Answer.{get_txt_answer}
use cdns.Dns.Crypt.Certificate.{Resolver, BeforeNm, find_valid_certificate}
use cdns.Dns.Crypt.Certifier.{
  Certifier, new_certifier, reschedule_query, reschedule_query_after_failure,
  reschedule_query_after_success, process_texts, process_response, update,
}
use cdns.Network.Packet.{Packet}
use cdns.Prelude.{
  ltb, Bool-cases, Bytes, Result-cases, ℕ, ◌≤◌, ◌<◌, ◌⊎◌, inl, inr, Bool, true, false, ◌&&◌, List,
  arith,
}

-- The functions of libsodium and the events of one certifier.
module _ (beforenm : BeforeNm) (sign_open : Bytes → Bytes → ℕ × Bytes) where
  -- The timer or `start`, or a response, with a random number below its bound.
  pub data Event : Certifier → Certifier → Type 0 where
    updates :
        {c : Certifier} (upstream_active made pending : Bool)
        → Event c (update upstream_active made pending c)
    responds :
        {c : Certifier} (now : ℕ) (pending : Bool) (jitter : ℕ) (q : Packet)
        → jitter < 100
        → Event c (process_response beforenm sign_open now pending jitter q c).0

  pub data Events (r : Resolver) : Certifier → Type 0 where
    no_event : Events r (new_certifier r)
    one_more : {c : Certifier} {d : Certifier} → Events r c → Event c d → Events r d

-- At most 5 requests, at most 100 steps, and a delay of 17 to 300 seconds or of an hour to 3699 seconds.
pub record IsPaced (c : Certifier) : Type 0 where
  pub few : c.attempts ≤ 5
  pub stepped : c.query_retry_step ≤ 100
  pub slow : 17 ≤ c.delay
  pub fast : (c.delay ≤ 300) ⊎ ((3600 ≤ c.delay) × (c.delay < 3700))

failure-IsPaced :
    (pending : Bool) (c : Certifier)
    → IsPaced c
    → IsPaced (reschedule_query_after_failure pending c)
unfolding reschedule_query_after_failure reschedule_query
failure-IsPaced true c p = p
failure-IsPaced false c p = record {
  few = p.few;
  stepped = ground (arith, p.stepped);
  slow = omega arith;
  fast = inl (omega (arith, p.stepped));
}

success-IsPaced :
    (pending : Bool) (jitter : ℕ) (c : Certifier)
    → jitter < 100
    → IsPaced c
    → IsPaced (reschedule_query_after_success pending jitter c)
unfolding reschedule_query_after_success reschedule_query
success-IsPaced true jitter c lt p = p
success-IsPaced false jitter c lt p = record {
  few = p.few;
  stepped = p.stepped;
  slow = omega arith;
  fast = inr (omega arith, omega (arith, lt));
}

-- A certifier with another resolver, without its request, or with its steps reset.
like-IsPaced :
    (c : Certifier) (r : Resolver) (step : ℕ) (up : Bool)
    → step ≤ c.query_retry_step
    → IsPaced c
    → IsPaced (record c { resolver = r; query_retry_step = step; has_upstream = up })
like-IsPaced c r step up le p = record {
  few = p.few;
  stepped = omega (arith, le, p.stepped);
  slow = p.slow;
  fast = p.fast;
}

update-IsPaced :
    (upstream_active made pending : Bool) (c : Certifier)
    → IsPaced c
    → IsPaced (update upstream_active made pending c)
unfolding update
update-IsPaced upstream_active made pending c p =
    elim (Bool-cases (c.has_upstream && upstream_active)) [
      | inl alive ↦ rw (update, alive) p
      | inr dead ↦ elim (Bool-cases (ltb 4 c.attempts)) [
        | inl many ↦
            rw (update, dead, many)
              (record { few = p.few; stepped = p.stepped; slow = p.slow; fast = p.fast })
        | inr few ↦ elim (Bool-cases made) [
          | inl yes_made ↦
              rw (update, dead, few, yes_made)
                (record {
                  few = ground (arith, few);
                  stepped = p.stepped;
                  slow = p.slow;
                  fast = p.fast;
                })
          | inr not_made ↦
              rw (update, dead, few, not_made)
                (failure-IsPaced pending (record c { has_upstream = false })
                  (record { few = p.few; stepped = p.stepped; slow = p.slow; fast = p.fast }))
        ]
      ]
    ]

module _ (beforenm : BeforeNm) (sign_open : Bytes → Bytes → ℕ × Bytes) where
  process_texts-IsPaced :
      (now : ℕ) (pending : Bool) (jitter : ℕ) (texts : List Bytes) (c : Certifier)
      → jitter < 100
      → IsPaced c
      → IsPaced (process_texts beforenm sign_open now pending jitter texts c).0
  unfolding process_texts
  process_texts-IsPaced now pending jitter texts c lt p =
      let found = find_valid_certificate beforenm sign_open now texts c.resolver in
      let c' = record c { resolver = found.0 } in
      let c0 = record c' { query_retry_step = 0 } in
      let p' = like-IsPaced c found.0 c.query_retry_step c.has_upstream (omega arith) p in
      let p0 = like-IsPaced c found.0 0 c.has_upstream (omega arith) p in
      elim (Result-cases found.1) [
        | inr (x, e) ↦ rw (process_texts, e) p'
        | inl (good, e) ↦ elim (Bool-cases good) [
          | inl found_one ↦
              let s = reschedule_query_after_success pending jitter c0 in
              rw (process_texts, e, found_one)
                (like-IsPaced s s.resolver s.query_retry_step false (omega arith)
                  (success-IsPaced pending jitter c0 lt p0))
          | inr found_none ↦
              let s = reschedule_query_after_failure pending c' in
              rw (process_texts, e, found_none)
                (like-IsPaced s s.resolver s.query_retry_step false (omega arith)
                  (failure-IsPaced pending c' p'))
        ]
      ]

  Event-IsPaced :
      {c : Certifier} {d : Certifier} → IsPaced c → Event beforenm sign_open c d → IsPaced d
  unfolding process_response
  Event-IsPaced {c} p (updates alive made pending) = update-IsPaced alive made pending c p
  Event-IsPaced {c} p (responds now pending jitter q lt) = elim (Result-cases (get_txt_answer q)) [
    | inr (x, e) ↦ rw (process_response, e) p
    | inl (texts, e) ↦
        rw (process_response, e) (process_texts-IsPaced now pending jitter texts c lt p)
  ]

-- After any sequence of updates and of responses, with random numbers below their bound: the certifier
-- has made at most 5 requests, whether they were answered or not; its step is at most 100; and
-- the delay of its timer is 17 to 300 seconds, or an hour to 3699 seconds.
pub Events-IsPaced :
    (beforenm : BeforeNm) (sign_open : Bytes → Bytes → ℕ × Bytes) (r : Resolver) (c : Certifier)
    → Events beforenm sign_open r c
    → IsPaced c
unfolding new_certifier
Events-IsPaced beforenm sign_open r c no_event = record {
  few = omega arith;
  stepped = omega arith;
  slow = omega arith;
  fast = inl (omega arith);
}
Events-IsPaced beforenm sign_open r d (one_more {c} s e) =
    Event-IsPaced beforenm sign_open (Events-IsPaced beforenm sign_open r c s) e

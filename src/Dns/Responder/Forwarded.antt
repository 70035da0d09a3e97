-- ===== src/Dns/Responder/Forwarded.antt =====
-- What is passed on to another server, what is answered from the cache, and the question for the root.
use cdns.Dns.Cache.{retrieve}
use cdns.Dns.Hosts.{response}
use cdns.Dns.Record.{Question, get_question, drop_last_dot, hostname}
use cdns.Dns.Responder.{
  Provider, Responder, passes, Filtered, pre_filter, store_response, onion, Choice, zone_choice,
  listed, zone_provider, select_random_provider, random_provider, passed_on, store_and_respond,
  ask_provider, after_filter, process,
}
use cdns.Dns.Responder.Filtering.{
  Passed, blocked_name, fetched_answer, known_host, unknown, pre_filter-Passed,
}
use cdns.Network.Address.{Inet}
use cdns.Network.Packet.{Packet, is_dns}
use cdns.Prelude.{
  ltb, leb, ◌==◌, Bool-cases, Option-cases, Bytes, bytes_eq, length, drop, ok, Result-cases,
  >>=-eq-ok, ℕ, ◌+◌, ◌-◌, ◌<◌, ◌≡◌, subst, ◌≢◌, inl, inr, Bool, true, false, ◌&&◌, Option, none,
  some, List, [], arith,
}

-- A choice of a provider that there is.
unfoldable pub IsChoice : Responder → Choice → Type 0
IsChoice r zone_choice = r.onion_provider ≢ none
IsChoice r (listed i) = i < length r.dns_providers

select_random_provider-lt :
    (rand : ℕ) (ps : List Provider) → 0 < length ps → select_random_provider rand ps < length ps
unfolding select_random_provider
select_random_provider-lt rand ps h = ground arith

same_choice :
    (r : Responder) (c d : Choice) → ok (some d) ≡ ok (some c) → IsChoice r d → IsChoice r c
same_choice r c d h v = let e : d ≡ c = cc in subst (IsChoice r) e v

zone_provider-IsChoice :
    (p : Packet) (r : Responder) {c : Choice} → zone_provider p r ≡ ok (some c) → IsChoice r c
unfolding zone_provider IsChoice
zone_provider-IsChoice p r {c} h = elim (Option-cases r.onion_provider) [
  | inl e ↦ let g = rw (zone_provider, e) at h in cc
  | inr (o, e) ↦
      let (owner, _, g) = >>=-eq-ok (hostname p) _ (rw (zone_provider, e) at h) in
      elim (Bool-cases (ltb 6 (length owner) && bytes_eq (drop (length owner - 6) owner) onion)) [
        | inl t ↦ same_choice r c zone_choice (rw t at g) (λ n. cc)
        | inr f ↦ let k = rw f at g in cc
      ]
]

random_provider-IsChoice :
    (rand : ℕ) (p : Packet) (r : Responder) {c : Choice}
    → random_provider rand p r ≡ ok (some c)
    → IsChoice r c
unfolding random_provider IsChoice
random_provider-IsChoice rand p r {c} h =
    let i = select_random_provider rand r.dns_providers in
    let (zone, e, h1) = >>=-eq-ok (zone_provider p r) _ h in
    elim (Option-cases zone) [
      | inr (z, s) ↦ same_choice r c z (rw s at h1) (zone_provider-IsChoice p r (rw s at e))
      | inl s ↦ elim (Bool-cases (length r.dns_providers == 0)) [
        | inl blank ↦ let g = rw (s, blank) at h1 in cc
        | inr filled ↦
            let lt = select_random_provider-lt rand r.dns_providers (ground arith) in
            let inside : leb (length r.dns_providers) i ≡ false = ground (arith, lt) in
            same_choice r c (listed i) (rw (s, filled, inside) at h1) lt
      ]
    ]

ask_provider-IsChoice :
    (connects : Bool) (rand : ℕ) (p : Packet) (r : Responder) {c : Choice}
    → (ask_provider connects rand p r).1 ≡ passed_on c
    → IsChoice r c
unfolding ask_provider
ask_provider-IsChoice connects rand p r {c} h = elim (Result-cases (random_provider rand p r)) [
  | inr (x, e) ↦ let g = rw (ask_provider, e) at h in cc
  | inl (o, e) ↦ elim (Option-cases o) [
    | inl n ↦ let g = rw (ask_provider, e, n) at h in cc
    | inr (d, s) ↦ elim (Bool-cases connects) [
      | inr down ↦ let g = rw (ask_provider, e, s, down) at h in cc
      | inl up ↦
          let g : passed_on d ≡ passed_on c = rw (ask_provider, e, s, up) at h in
          let same : d ≡ c = cc in
          subst (IsChoice r) same (random_provider-IsChoice rand p r (rw s at e))
    ]
  ]
]

store_and_respond-answers :
    (now : ℕ) (p : Packet) (r : Responder) (c : Choice)
    → (store_and_respond now p r).1 ≢ passed_on c
unfolding store_and_respond
store_and_respond-answers now p r c h = elim (Result-cases (store_response now p r)) [
  | inl (s, e) ↦ let g = rw (store_and_respond, e) at h in cc
  | inr (x, e) ↦ let g = rw (store_and_respond, e) at h in cc
]

-- What is known of a question that is passed on.
abbrev pub IsAsked :
    (Inet → Bytes → Option Bytes) → ℕ → Packet → Responder → Choice → Question → Type 0
IsAsked pton now p r c q =
    (get_question p ≡ ok q)
    × (passes r (drop_last_dot q.owner) q.type ≡ ok true)
    × (retrieve now p r.cache ≡ ok none)
    × (response r.hosts (drop_last_dot q.owner) ≡ [])
    × IsChoice r c

passed_on-IsAsked :
    (pton : Inet → Bytes → Option Bytes) (connects : Bool) (now rand : ℕ) (p : Packet)
    (r : Responder) (c : Choice) (q : Question) {x : (Responder × Packet) × Filtered}
    → get_question p ≡ ok q
    → Passed pton now p r q x
    → (after_filter connects now rand p x.1 x.0.1 x.0.0).1 ≡ passed_on c
    → IsAsked pton now p r c q
unfolding after_filter
passed_on-IsAsked pton connects now rand p r c q e (blocked_name a) h = cc
passed_on-IsAsked pton connects now rand p r c q e (fetched_answer a b) h = cc
passed_on-IsAsked pton connects now rand p r c q e (known_host {a} f b g) h =
    absurd (store_and_respond-answers now a r c h)
passed_on-IsAsked pton connects now rand p r c q e (unknown a b g) h =
    (e, a, b, g, ask_provider-IsChoice connects rand p r h)

-- The question of a request that is passed on to a server passes the filters; the cache has no answer to
-- it, and the file of hosts no address for its name; and the server is one of the list, or the one for
-- the zone where there is one.
pub process-IsAsked :
    (pton : Inet → Bytes → Option Bytes) (connects : Bool) (now rand : ℕ) (p : Packet)
    (r : Responder) (c : Choice)
    → (process pton connects now rand p r).1 ≡ passed_on c
    → (q : Question) × IsAsked pton now p r c q
unfolding process passes IsChoice
process-IsAsked pton connects now rand p r c h =
    let r1 = record r { processed_count = r.processed_count + 1 } in
    elim (Bool-cases (is_dns p)) [
      | inr other ↦ let g = rw (process, other) at h in cc
      | inl dns ↦ elim (Result-cases (pre_filter pton now p r1)) [
        | inr (x, e) ↦ let g = rw (process, dns, e) at h in cc
        | inl (x, e) ↦
            let (q, f, way) = pre_filter-Passed pton now p r1 e in
            (
              q,
              counted c q (
                  passed_on-IsAsked pton connects now rand p r1 c q f way
                    (rw (process, dns, e) at h)),
            )
      ]
    ]
  where
    counted :
        (d : Choice) (q : Question)
        → IsAsked pton now p (record r { processed_count = r.processed_count + 1 }) d q
        → IsAsked pton now p r d q
    counted zone_choice q a = a
    counted (listed i) q a = a

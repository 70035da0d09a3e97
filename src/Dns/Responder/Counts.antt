-- ===== src/Dns/Responder/Counts.antt =====
-- What holds of a responder after any sequence of requests and replies.
use cdns.Dns.Cache.{Cache, store}
use cdns.Dns.Cache.Fetch.{store-Distinct}
use cdns.Dns.Cache.Keys.{Distinct}
use cdns.Dns.Header.{rcode}
use cdns.Dns.Info.{short_info}
use cdns.Dns.Record.{Question}
use cdns.Dns.Responder.{
  Provider, Responder, Filtered, respond_now, store_and_send, ask_server, pre_filter,
  store_response, Choice, zone_choice, listed, random_provider, fail_at, fail_choice,
  store_and_respond, ask_provider, after_filter, process, pass_answer_downstream,
}
use cdns.Dns.Responder.Filtering.{
  Passed, blocked_name, fetched_answer, known_host, unknown, pre_filter-Passed,
}
use cdns.Network.Address.{Inet}
use cdns.Network.Packet.{Packet, is_dns}
use cdns.Network.Requests.{Request, clean}
use cdns.Prelude.{
  ◌==◌, Bool-cases, Option-cases, Bytes, length, Result-cases, ℕ, zero, suc, ◌+◌, ◌≤◌, ◌<◌, ◌≡◌,
  refl, ap, ◌∙◌, inl, inr, Bool, ◌||◌, Option, List, [], ◌∷◌, arith,
}

-- A request that arrives, a reply of a server, or requests that are closed meanwhile.
pub data Step (inet_pton : Inet → Bytes → Option Bytes) : Responder → Responder → Type 0 where
  request_arrives :
      {r : Responder} (connects : Bool) (now rand : ℕ) (p : Packet)
      → Step inet_pton r (process inet_pton connects now rand p r).0
  reply_arrives :
      {r : Responder} (now : ℕ) (p : Packet) → Step inet_pton r (pass_answer_downstream now p r).0
  close_requests :
      {r : Responder} (left : List Request)
      → Step inet_pton r (record r { upstream_requests = left })

pub data Reach (inet_pton : Inet → Bytes → Option Bytes) (start : Responder)
    : Responder → Type 0 where
  no_step : Reach inet_pton start start
  next_step :
      {r : Responder} {s : Responder}
      → Reach inet_pton start r
      → Step inet_pton r s
      → Reach inet_pton start s

-- Each request is counted as refused or as found in the cache once at most; the cache has no key twice;
-- filters, hosts, the number of providers and the smallest time to live are as at the start.
pub record Kept (start r : Responder) : Type 0 where
  pub counted : r.blacklisted_count + r.cached_count ≤ r.processed_count
  pub distinct : Distinct r.cache.entries
  pub same_ttl : r.cache.min_ttl ≡ start.cache.min_ttl
  pub same_whitelist : r.whitelist ≡ start.whitelist
  pub same_blacklist : r.blacklist ≡ start.blacklist
  pub same_hosts : r.hosts ≡ start.hosts
  pub same_count : length r.dns_providers ≡ length start.dns_providers

length-fail_at : (i : ℕ) (ps : List Provider) → length (fail_at i ps) ≡ length ps
unfolding fail_at
length-fail_at i [] = refl
length-fail_at zero (p ∷ ps) = refl
length-fail_at (suc i) (p ∷ ps) = ap suc (length-fail_at i ps)

module _ (start : Responder) where
  -- A responder with the same fields but for providers and requests.
  like-Kept :
      (r s : Responder)
      → Kept start r
      → r.blacklisted_count + r.cached_count ≤ s.processed_count
      → length s.dns_providers ≡ length r.dns_providers
      → (c : Cache) → Distinct c.entries
      → c.min_ttl ≡ r.cache.min_ttl
      → Kept start (record r {
        processed_count = s.processed_count;
        dns_providers = s.dns_providers;
        onion_provider = s.onion_provider;
        upstream_requests = s.upstream_requests;
        cache = c;
      })
  like-Kept r s k counts n c d e = record {
    counted = counts;
    distinct = d;
    same_ttl = e ∙ k.same_ttl;
    same_whitelist = k.same_whitelist;
    same_blacklist = k.same_blacklist;
    same_hosts = k.same_hosts;
    same_count = n ∙ k.same_count;
  }

  fail_choice-Kept : (c : Choice) (r : Responder) → Kept start r → Kept start (fail_choice c r)
  unfolding fail_choice
  fail_choice-Kept zone_choice r k =
      like-Kept r (fail_choice zone_choice r) k k.counted refl r.cache k.distinct refl
  fail_choice-Kept (listed i) r k =
      like-Kept r (fail_choice (listed i) r) k k.counted (length-fail_at i r.dns_providers) r.cache
        k.distinct refl

  requests-Kept :
      (xs : List Request) (r : Responder)
      → Kept start r
      → Kept start (record r { upstream_requests = xs })
  requests-Kept xs r k =
      like-Kept r (record r { upstream_requests = xs }) k k.counted refl r.cache k.distinct refl

  store_and_respond-Kept :
      (now : ℕ) (p : Packet) (r : Responder)
      → Kept start r
      → Kept start (store_and_respond now p r).0
  unfolding store_and_respond store_response
  store_and_respond-Kept now p r k = elim (Result-cases (store now p r.cache)) [
    | inl (c, e) ↦
        let s = store-Distinct now p r.cache k.distinct e in
        rw (store_and_respond, store_response, e) (like-Kept r r k k.counted refl c s.0 s.1)
    | inr (x, e) ↦ rw (store_and_respond, store_response, e) k
  ]

  ask_provider-Kept :
      (connects : Bool) (rand : ℕ) (p : Packet) (r : Responder)
      → Kept start r
      → Kept start (ask_provider connects rand p r).0
  unfolding ask_provider
  ask_provider-Kept connects rand p r k = elim (Result-cases (random_provider rand p r)) [
    | inr (x, e) ↦ rw (ask_provider, e) k
    | inl (c, e) ↦ elim (Option-cases c) [
      | inl n ↦ rw (ask_provider, e, n) k
      | inr (i, s) ↦ elim (Bool-cases connects) [
        | inl up ↦ rw (ask_provider, e, s, up) (requests-Kept _ r k)
        | inr down ↦
            rw (ask_provider, e, s, down)
              (fail_choice-Kept i (record r { upstream_requests = clean r.upstream_requests })
                (requests-Kept _ r k))
      ]
    ]
  ]

  reply-Kept :
      (now : ℕ) (p : Packet) (r : Responder)
      → Kept start r
      → Kept start (pass_answer_downstream now p r).0
  unfolding pass_answer_downstream
  reply-Kept now p r k = elim (Result-cases (short_info p)) [
    | inr (x, e) ↦ rw (pass_answer_downstream, e) k
    | inl (u, e) ↦ elim (Bool-cases (rcode p == 0 || rcode p == 3)) [
      | inl good ↦ rw (pass_answer_downstream, e, good) (store_and_respond-Kept now p r k)
      | inr bad ↦ rw (pass_answer_downstream, e, bad) k
    ]
  ]

  -- Every way through `pre_filter`, with a request that is counted.
  Passed-Kept :
      (pton : Inet → Bytes → Option Bytes) (now : ℕ) (p : Packet) (r : Responder) (q : Question)
      {x : (Responder × Packet) × Filtered}
      → r.blacklisted_count + r.cached_count < r.processed_count
      → Kept start r
      → Passed pton now p r q x
      → Kept start x.0.0
  Passed-Kept pton now p r q lt k (blocked_name e) = record {
    counted = omega (arith, lt);
    distinct = k.distinct;
    same_ttl = k.same_ttl;
    same_whitelist = k.same_whitelist;
    same_blacklist = k.same_blacklist;
    same_hosts = k.same_hosts;
    same_count = k.same_count;
  }
  Passed-Kept pton now p r q lt k (fetched_answer e f) = record {
    counted = omega (arith, lt);
    distinct = k.distinct;
    same_ttl = k.same_ttl;
    same_whitelist = k.same_whitelist;
    same_blacklist = k.same_blacklist;
    same_hosts = k.same_hosts;
    same_count = k.same_count;
  }
  Passed-Kept pton now p r q lt k (known_host e f g) = k
  Passed-Kept pton now p r q lt k (unknown e f g) = k

  counted-Kept :
      (r : Responder)
      → Kept start r
      → Kept start (record r { processed_count = r.processed_count + 1 })
  counted-Kept r k =
      like-Kept r (record r { processed_count = r.processed_count + 1 }) k
        (omega (arith, k.counted)) refl r.cache k.distinct refl

  process-Kept :
      (pton : Inet → Bytes → Option Bytes) (connects : Bool) (now rand : ℕ) (p : Packet)
      (r : Responder)
      → Kept start r
      → Kept start (process pton connects now rand p r).0
  unfolding process after_filter
  process-Kept pton connects now rand p r k =
      let r1 = record r { processed_count = r.processed_count + 1 } in
      let k1 = counted-Kept r k in
      elim (Bool-cases (is_dns p)) [
        | inr other ↦ rw (process, other) k
        | inl dns ↦ elim (Result-cases (pre_filter pton now p r1)) [
          | inr (x, e) ↦ rw (process, dns, e) k1
          | inl (((r2, m), way), e) ↦
              let (q, _, f) = pre_filter-Passed pton now p r1 e in
              let k2 = Passed-Kept pton now p r1 q (omega (arith, k.counted)) k1 f in
              rw (process, dns, e) (ways way r2 m k2)
        ]
      ]
    where
      ways :
          (way : Filtered) (r2 : Responder) (m : Packet)
          → Kept start r2
          → Kept start (after_filter connects now rand p way m r2).0
      ways respond_now r2 m k2 = k2
      ways store_and_send r2 m k2 = store_and_respond-Kept now m r2 k2
      ways ask_server r2 m k2 = ask_provider-Kept connects rand p r2 k2

  pub Step-Kept :
      (pton : Inet → Bytes → Option Bytes) {r : Responder} {s : Responder}
      → Kept start r
      → Step pton r s
      → Kept start s
  Step-Kept pton {r} k (request_arrives connects now rand p) =
      process-Kept pton connects now rand p r k
  Step-Kept pton {r} k (reply_arrives now p) = reply-Kept now p r k
  Step-Kept pton {r} k (close_requests left) = requests-Kept left r k

-- From a responder with no key twice in its cache whose counts add up to no more than what is processed, after any sequence of
-- requests, replies of servers and requests that are closed: what is counted as refused or as found in
-- the cache is at most what is processed, the cache has no key twice, and the filters, the hosts, the
-- number of providers and the smallest time to live are as before.
pub Reach-Kept :
    (pton : Inet → Bytes → Option Bytes) (start : Responder) {r : Responder}
    → Distinct start.cache.entries
    → start.blacklisted_count + start.cached_count ≤ start.processed_count
    → Reach pton start r
    → Kept start r
Reach-Kept pton start d c no_step = record {
  counted = c;
  distinct = d;
  same_ttl = refl;
  same_whitelist = refl;
  same_blacklist = refl;
  same_hosts = refl;
  same_count = refl;
}
Reach-Kept pton start d c (next_step reached step) =
    Step-Kept start pton (Reach-Kept pton start d c reached) step

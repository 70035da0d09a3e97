-- ===== src/Dns/Responder/Reloaded.antt =====
-- What `responder::reload` leaves as it is and what it replaces, whether an exception leaves it or not.
use cdns.Dns.Filter.{Filter}
use cdns.Dns.Filter.Load.{no_filter}
use cdns.Dns.Hosts.{HostMap}
use cdns.Dns.Responder.{Provider, Responder}
use cdns.Dns.Responder.Load.{
  from_file, Parameters, file_text, and_then, set_providers, merge_files, reload_whitelist,
  reload_blacklist, reload_onion, open_hosts, reload_hosts, reload,
}
use cdns.Network.Address.{Inet, new_address}
use cdns.Prelude.{
  ◌==◌, Bool-cases, Bytes, length, Error, Result, err, ok, Result-cases, ◌≡◌, refl, inl, inr, false,
  Option, none, some, List, [],
}

-- What a responder `s` has of a responder `r`, and of the parameters and the list of servers it was given.
pub record IsReloaded (p : Parameters) (listed : Result (List Provider)) (r s : Responder)
    : Type 0 where
  pub same_cache : s.cache ≡ r.cache
  pub same_requests : s.upstream_requests ≡ r.upstream_requests
  pub same_counts :
      (s.processed_count ≡ r.processed_count)
      × (s.cached_count ≡ r.cached_count)
      × (s.blacklisted_count ≡ r.blacklisted_count)
  pub same_dir : s.cache_dir ≡ r.cache_dir
  pub given_noipv6 : s.noipv6 ≡ p.noipv6
  pub given_providers : s.dns_providers ≡ elim listed [ err e ↦ r.dns_providers | ok ps ↦ ps ]

and_then-Keeps :
    (P : Responder → Type 0) (x : Responder × Option Error)
    (next : Responder → Responder × Option Error)
    → P x.0
    → ((s : Responder) → P s → P (next s).0)
    → P (and_then x next).0
unfolding and_then
and_then-Keeps P (r, some e) next h k = h
and_then-Keeps P (r, none) next h k = k r h

module _ (pton : Inet → Bytes → Option Bytes) (files : Bytes → Option Bytes) (p : Parameters)
    (listed : Result (List Provider)) (r : Responder) where
  -- The filters, the file of hosts and the server for a zone are none of those.
  replaced :
      (s : Responder) (white black : Filter) (hosts : HostMap) (server : Option Provider)
      → IsReloaded p listed r s
      → IsReloaded p listed r (record s {
        whitelist = white;
        blacklist = black;
        hosts = hosts;
        onion_provider = server;
      })
  replaced s white black hosts server h = record {
    same_cache = h.same_cache;
    same_requests = h.same_requests;
    same_counts = h.same_counts;
    same_dir = h.same_dir;
    given_noipv6 = h.given_noipv6;
    given_providers = h.given_providers;
  }

  reload_onion-IsReloaded :
      (s : Responder)
      → IsReloaded p listed r s
      → IsReloaded p listed r (reload_onion pton p.onion s).0
  unfolding reload_onion
  reload_onion-IsReloaded s h = elim (Bool-cases (length p.onion == 0)) [
    | inl unset ↦ rw unset (replaced s s.whitelist s.blacklist s.hosts none h)
    | inr set ↦ elim (Result-cases (new_address pton p.onion 5353)) [
      | inl (a, e) ↦
          let server : Provider = record { address = a; tcp = false; failures = 0 } in
          rw (set, e) (replaced s s.whitelist s.blacklist s.hosts (some server) h)
      | inr (x, e) ↦ rw (set, e) h
    ]
  ]

  reload_hosts-IsReloaded :
      (s : Responder)
      → IsReloaded p listed r s
      → IsReloaded p listed r (reload_hosts pton files p.noipv6 p.hosts s).0
  unfolding reload_hosts
  reload_hosts-IsReloaded s h = elim (Bool-cases (length p.hosts == 0)) [
    | inl unset ↦ rw unset (replaced s s.whitelist s.blacklist [] s.onion_provider h)
    | inr set ↦ elim (Result-cases (open_hosts pton p.noipv6 (files p.hosts))) [
      | inl (hosts, e) ↦ rw (set, e) (replaced s s.whitelist s.blacklist hosts s.onion_provider h)
      | inr (x, e) ↦ rw (set, e) h
    ]
  ]

  set_providers-IsReloaded :
      IsReloaded p listed r (record (set_providers listed r) { noipv6 = p.noipv6 })
  set_providers-IsReloaded =
      elim listed as (λ l. IsReloaded p l r (record (set_providers l r) { noipv6 = p.noipv6 })) [
        | err e ↦
            unfold set_providers in
            record {
              same_cache = refl;
              same_requests = refl;
              same_counts = (refl, refl, refl);
              same_dir = refl;
              given_noipv6 = refl;
              given_providers = refl;
            }
        | ok ps ↦
            unfold set_providers in
            record {
              same_cache = refl;
              same_requests = refl;
              same_counts = (refl, refl, refl);
              same_dir = refl;
              given_noipv6 = refl;
              given_providers = refl;
            }
      ]

-- For any files, parameters and responder: after a reload, also one that an exception leaves, the cache with
-- its directory, the open requests and the counts are as they were, queries for the second family are
-- refused as the parameters say, and the servers are those of the new list, but as they were if the list
-- has an error.
pub reload-IsReloaded :
    (pton : Inet → Bytes → Option Bytes) (files : Bytes → Option Bytes) (p : Parameters)
    (r : Responder)
    → IsReloaded p
        (from_file pton p.noipv6 p.net_proto (file_text (files p.resolvers)))
        r
        (reload pton files p r).0
unfolding reload reload_whitelist reload_blacklist
reload-IsReloaded pton files p r =
    let listed = from_file pton p.noipv6 p.net_proto (file_text (files p.resolvers)) in
    let r1 = record (set_providers listed r) { noipv6 = p.noipv6 } in
    let P = IsReloaded p listed r in
    let white = reload_whitelist files p.whitelists r1 in
    let black = and_then white (reload_blacklist files p.blacklists) in
    let third = and_then black (reload_onion pton p.onion) in
    let change = replaced pton files p listed r in
    let w : P white.0 =
      change r1 (merge_files files p.whitelists no_filter).0 r1.blacklist r1.hosts r1.onion_provider
        (set_providers-IsReloaded pton files p listed r) in
    let b : P black.0 = and_then-Keeps P white (reload_blacklist files p.blacklists) w (λ s h.
      change s s.whitelist (merge_files files p.blacklists no_filter).0 s.hosts s.onion_provider
        h) in
    let z : P third.0 =
      and_then-Keeps P black (reload_onion pton p.onion) b
        (reload_onion-IsReloaded pton files p listed r) in
    and_then-Keeps P third (reload_hosts pton files p.noipv6 p.hosts) z
      (reload_hosts-IsReloaded pton files p listed r)

-- ===== src/Dns/Crypt/Cresponder/Load.antt =====
-- dns/crypt/srcz/cresponder.cpp: `load`, which merges a list of servers into the map of servers. The keys that
-- the constructor of a certifier makes at random, and `inet_ntop`, are arguments. What the list cannot
-- be read for is a `std::runtime_error`, which is logged.
use cdns.Dns.Crypt.Certificate.{EncryptorData}
use cdns.Dns.Crypt.Certifier.{Certifier, new_certifier}
use cdns.Dns.Crypt.Cresponder.{Cresponder, find_crypt_provider}
use cdns.Dns.Crypt.Resolvers.{ListedResolver, parse_resolvers_list}
use cdns.Dns.WordSets.{lex_less}
use cdns.Network.Address.{Inet, ipv4, ipv6, ip_port}
use cdns.Prelude.{
  ◌==◌, if◌then◌else◌, Bytes, bytes_eq, length, Error, merging_failed, Result, err, ok, ℕ, ◌+◌,
  Bool, true, false, not, Option, none, some, List, [], ◌∷◌,
}

-- `std::make_shared <certifier> (std::move (resolver), ...)`; the keys and the number of a certificate are not set yet.
unfoldable pub certifier_of : EncryptorData → ListedResolver → Certifier
certifier_of client r = new_certifier (record {
  pubkey_ = r.pubkey_;
  resolver_pubkey_ = [];
  dnscrypt_magic_query_ = [];
  ready_ = false;
  client = client;
})

-- `std::map::emplace`, of a key that is not there; the map is sorted by its keys.
unfoldable pub put_provider :
    Bytes → Certifier → List (Bytes × Certifier) → List (Bytes × Certifier)
put_provider key c [] = (key, c) ∷ []
put_provider key c ((k, d) ∷ ps) =
    let rest = put_provider key c ps in
    if lex_less key k then (key, c) ∷ (k, d) ∷ ps else (k, d) ∷ rest

-- `std::map::erase`
unfoldable pub erase_provider : Bytes → List (Bytes × Certifier) → List (Bytes × Certifier)
erase_provider key [] = []
erase_provider key ((k, d) ∷ ps) =
    let rest = erase_provider key ps in if bytes_eq k key then ps else (k, d) ∷ rest

-- `!(noipv6 && network::inet::ipv6 == addr.inet())`
unfoldable pub is_usable : Bool → ListedResolver → Bool
is_usable noipv6 r = elim r.address.inet [ ipv4 ↦ true | ipv6 ↦ not noipv6 ]

-- The first loop, of one server.
unfoldable pub merge_resolver :
    (Inet → Bytes → Bytes)
    → (ListedResolver → Certifier)
    → Bool
    → ListedResolver
    → List (Bytes × Certifier)
    → List (Bytes × Certifier)
merge_resolver inet_ntop make noipv6 r ps =
    let key = ip_port inet_ntop r.address in
    elim (find_crypt_provider key ps) [
      | none ↦ if is_usable noipv6 r then put_provider key (make r) ps else ps
      | some d ↦ if is_usable noipv6 r then ps else erase_provider key ps
    ]

unfoldable pub merge_resolvers :
    (Inet → Bytes → Bytes)
    → (ListedResolver → Certifier)
    → Bool
    → List ListedResolver
    → List (Bytes × Certifier)
    → List (Bytes × Certifier)
merge_resolvers inet_ntop make noipv6 [] ps = ps
merge_resolvers inet_ntop make noipv6 (r ∷ rs) ps =
    merge_resolvers inet_ntop make noipv6 rs (merge_resolver inet_ntop make noipv6 r ps)

-- `used`
unfoldable pub used_count : Bool → List ListedResolver → ℕ
used_count noipv6 [] = 0
used_count noipv6 (r ∷ rs) = (if is_usable noipv6 r then 1 else 0) + used_count noipv6 rs

-- `std::find_if` of a server with the text of its address.
unfoldable pub find_listed :
    (Inet → Bytes → Bytes) → Bytes → List ListedResolver → Option ListedResolver
find_listed inet_ntop key [] = none
find_listed inet_ntop key (r ∷ rs) =
    if bytes_eq (ip_port inet_ntop r.address) key then some r else find_listed inet_ntop key rs

abbrev pub is_some {ℓ} : {A : Type ℓ} → Option A → Bool
is_some none = false
is_some (some a) = true

-- The second loop: the servers that are not listed are erased.
unfoldable pub keep_providers : (Bytes → Bool) → List (Bytes × Certifier) → List (Bytes × Certifier)
keep_providers test [] = []
keep_providers test ((k, d) ∷ ps) =
    let rest = keep_providers test ps in if test k then (k, d) ∷ rest else rest

unfoldable pub load_providers :
    (Inet → Bytes → Bytes)
    → (ListedResolver → Certifier)
    → Bool
    → Result (List ListedResolver)
    → List (Bytes × Certifier)
    → List (Bytes × Certifier) × Option Error
load_providers inet_ntop make noipv6 (err e) ps = (ps, none)
load_providers inet_ntop make noipv6 (ok rs) ps =
    let merged = merge_resolvers inet_ntop make noipv6 rs ps in
    let kept = keep_providers (λ key. is_some (find_listed inet_ntop key rs)) merged in
    (kept, if length kept == used_count noipv6 rs then none else some merging_failed)

-- `cresponder::load`: the responder, and the exception if one leaves it.
unfoldable pub crypt_load :
    (Inet → Bytes → Option Bytes)
    → (Inet → Bytes → Bytes)
    → (Bytes → ℕ × Bytes)
    → (ListedResolver → EncryptorData)
    → Bool
    → Bool
    → Option Bytes
    → Cresponder
    → Cresponder × Option Error
crypt_load inet_pton inet_ntop sodium_hex2bin client noipv6 tcp file c =
    let listed = parse_resolvers_list inet_pton sodium_hex2bin tcp file in
    let loaded =
      load_providers inet_ntop (λ r. certifier_of (client r) r) noipv6 listed
        c.dnscrypt_providers in
    (record c { dnscrypt_providers = loaded.0 }, loaded.1)

-- ===== src/Dns/Responder/Load.antt =====
-- dns/srcz/responder.cpp: the list of servers as in resolv.conf, `responder::reload` and the constructor;
-- dns/responder_parameters.hxx. What files hold is an argument: a stream of a missing file reads nothing.
-- The names of the filter files come in the order in which their set is iterated. The time-out of
-- requests and log output are left out.
use cdns.Dns.Cache.{Cache, new_cache, collect_garbage}
use cdns.Dns.Cache.File.{load_file}
use cdns.Dns.Filter.{Filter, merge}
use cdns.Dns.Filter.Load.{take_word, ignore_line, no_filter, load_filter}
use cdns.Dns.Hosts.{wanted, HostMap, load_hosts}
use cdns.Dns.Responder.{Provider, Responder}
use cdns.Network.Address.{Inet, Address, new_address}
use cdns.Prelude.{
  ◌==◌, if◌then◌else◌, Bytes, codes, bytes_eq, length, Error, out_of_fuel, no_file, Result, err, ok,
  ◌>>=◌, ℕ, zero, suc, Bool, false, ◌||◌, Option, none, some, List, [], ◌∷◌, ◌++◌,
}
use cdns.Sys.Text.{front_is, skip_spaces}

-- `key`
abbrev pub unused_keys : List Bytes
unused_keys = codes "search" ∷ codes "domain" ∷ codes "sortlist" ∷ codes "options" ∷ []

-- `std::find` of a word.
unfoldable pub is_one_of : List Bytes → Bytes → Bool
is_one_of [] word = false
is_one_of (k ∷ ks) word = bytes_eq k word || is_one_of ks word

abbrev pub dns_port : ℕ
dns_port = 53

unfoldable pub add_server : Bool → Bool → Address → List Provider → List Provider
add_server noipv6 tcp a rest =
    if wanted noipv6 a.inet then record { address = a; tcp = tcp; failures = 0 } ∷ rest else rest

-- The loop, on fuel. An operation on a stream at its end fails, also `ignore`, and a stream that failed
-- ends the loop.
unfoldable pub servers_loop :
    (Inet → Bytes → Option Bytes) → Bool → Bool → ℕ → Bytes → Result (List Provider)
servers_loop inet_pton noipv6 tcp zero text = err out_of_fuel
servers_loop inet_pton noipv6 tcp (suc fuel) text =
    let read = take_word (skip_spaces text) in
    let skipped = servers_loop inet_pton noipv6 tcp fuel (ignore_line 100000 read.1) in
    let server = take_word (skip_spaces read.1) in
    let named =
      (new_address inet_pton server.0 dns_port >>= λ a.
      servers_loop inet_pton noipv6 tcp fuel (ignore_line 100000000000 server.1) >>= λ ps.
      ok (add_server noipv6 tcp a ps)) in
    let bare =
      (new_address inet_pton read.0 dns_port >>= λ a.
      servers_loop inet_pton noipv6 tcp fuel read.1 >>= λ ps. ok (add_server noipv6 tcp a ps)) in
    if length read.0 == 0
    then ok []
    else if front_is b'#' read.0 || is_one_of unused_keys read.0
    then skipped
    else if bytes_eq read.0 (codes "nameserver")
    then (if length server.1 == 0 then ok [] else named)
    else bare

-- `responder::from_file`; each turn of the loop reads a character or ends it.
unfoldable pub from_file :
    (Inet → Bytes → Option Bytes) → Bool → Bool → Bytes → Result (List Provider)
from_file inet_pton noipv6 tcp text = servers_loop inet_pton noipv6 tcp (suc (length text)) text

-- `responder_parameters`
pub record Parameters : Type 0 where
  pub resolvers : Bytes
  pub hosts : Bytes
  pub onion : Bytes
  pub cachedir : Bytes
  pub noipv6 : Bool
  pub net_proto : Bool
  pub min_ttl : ℕ
  pub whitelists : List Bytes
  pub blacklists : List Bytes

-- The text of a stream that may have failed.
abbrev pub file_text : Option Bytes → Bytes
file_text none = []
file_text (some text) = text

-- A responder, and the exception if one was thrown; what follows is done if none was.
unfoldable pub and_then :
    Responder × Option Error → (Responder → Responder × Option Error) → Responder × Option Error
and_then (r, some e) next = (r, some e)
and_then (r, none) next = next r

unfoldable pub set_providers : Result (List Provider) → Responder → Responder
set_providers (err e) r = r
set_providers (ok ps) r = record r { dns_providers = ps }

-- The filters of files, merged one after the other; those before an exception stay.
unfoldable pub merge_files : (Bytes → Option Bytes) → List Bytes → Filter → Filter × Option Error
merge_files files [] f = (f, none)
merge_files files (name ∷ names) f = elim (load_filter (file_text (files name))) [
  | err e ↦ (f, some e)
  | ok g ↦ merge_files files names (merge f g)
]

unfoldable pub reload_whitelist :
    (Bytes → Option Bytes) → List Bytes → Responder → Responder × Option Error
reload_whitelist files names r =
    let merged = merge_files files names no_filter in (record r { whitelist = merged.0 }, merged.1)

unfoldable pub reload_blacklist :
    (Bytes → Option Bytes) → List Bytes → Responder → Responder × Option Error
reload_blacklist files names r =
    let merged = merge_files files names no_filter in (record r { blacklist = merged.0 }, merged.1)

unfoldable pub reload_onion :
    (Inet → Bytes → Option Bytes) → Bytes → Responder → Responder × Option Error
reload_onion inet_pton server r =
    if length server == 0
    then (record r { onion_provider = none }, none)
    else elim (new_address inet_pton server 5353) [
      | err e ↦ (r, some e)
      | ok a ↦ (
        record r { onion_provider = some (record { address = a; tcp = false; failures = 0 }) },
        none,
      )
    ]

-- `hosts (file_name, disable_ipv6)`, with the opening of the file.
unfoldable pub open_hosts : (Inet → Bytes → Option Bytes) → Bool → Option Bytes → Result HostMap
open_hosts inet_pton noipv6 none = err no_file
open_hosts inet_pton noipv6 (some text) = load_hosts inet_pton noipv6 text

unfoldable pub reload_hosts :
    (Inet → Bytes → Option Bytes)
    → (Bytes → Option Bytes)
    → Bool
    → Bytes
    → Responder
    → Responder × Option Error
reload_hosts inet_pton files noipv6 name r =
    if length name == 0
    then (record r { hosts = [] }, none)
    else elim (open_hosts inet_pton noipv6 (files name)) [
      | err e ↦ (r, some e)
      | ok hosts ↦ (record r { hosts = hosts }, none)
    ]

-- `responder::reload`: the responder, and the exception if one leaves it.
unfoldable pub reload :
    (Inet → Bytes → Option Bytes)
    → (Bytes → Option Bytes)
    → Parameters
    → Responder
    → Responder × Option Error
reload inet_pton files p r =
    let listed = from_file inet_pton p.noipv6 p.net_proto (file_text (files p.resolvers)) in
    let r1 = record (set_providers listed r) { noipv6 = p.noipv6 } in
    and_then
      (and_then
        (and_then (reload_whitelist files p.whitelists r1) (reload_blacklist files p.blacklists))
        (reload_onion inet_pton p.onion))
      (reload_hosts inet_pton files p.noipv6 p.hosts)

abbrev pub cache_file : Bytes
cache_file = codes "/dnscache.bin"

-- The cache that the constructor starts with.
unfoldable pub starting_cache : (Bytes → Option Bytes) → ℕ → Parameters → Cache
starting_cache files now p =
    if length p.cachedir == 0
    then new_cache p.min_ttl
    else elim (load_file p.min_ttl (file_text (files (p.cachedir ++ cache_file)))) [
      | err e ↦ new_cache p.min_ttl
      | ok c ↦ collect_garbage now c
    ]

-- `responder (params)`
unfoldable pub new_responder :
    (Inet → Bytes → Option Bytes)
    → (Bytes → Option Bytes)
    → ℕ
    → Parameters
    → Responder × Option Error
new_responder inet_pton files now p = reload inet_pton files p (record {
  whitelist = no_filter;
  blacklist = no_filter;
  cache = starting_cache files now p;
  hosts = [];
  dns_providers = [];
  onion_provider = none;
  upstream_requests = [];
  blacklisted_count = 0;
  processed_count = 0;
  cached_count = 0;
  cache_dir = p.cachedir;
  noipv6 = p.noipv6;
})

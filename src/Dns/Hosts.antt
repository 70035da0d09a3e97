-- ===== src/Dns/Hosts.antt =====
-- dns/srcz/hosts.cpp: addresses by names, from a file of hosts. A file is the bytes that
-- are read; a map is an association list; `inet_pton` of the system is an argument.
pub mod Loaded
pub mod Steps
pub mod Lines
pub mod Read
use cdns.Dns.Filter.Load.{ignore_line}
use cdns.Network.Address.{Inet, ipv4, ipv6, is_ip_address}
use cdns.Prelude.{
  leb, ◌==◌, if◌then◌else◌, Bytes, bytes_eq, length, out_of_fuel, hosts_word_long, Result, err, ok,
  ◌>>=◌, ℕ, zero, suc, Bool, true, false, not, ◌||◌, Option, none, some, List, [], ◌∷◌, ◌++◌,
}
use cdns.Sys.Text.{c_str}

-- Whether the address of a line is kept.
unfoldable pub wanted : Bool → Inet → Bool
wanted disable_ipv6 ipv4 = true
wanted disable_ipv6 ipv6 = not disable_ipv6

abbrev pub HostMap : Type 0
HostMap = List (Bytes × Bytes)

unfoldable pub find_host : Bytes → HostMap → Option Bytes
find_host name [] = none
find_host name (e ∷ es) =
    let rest = find_host name es in if bytes_eq e.0 name then some e.1 else rest

-- `str = host_ip_map_[word]; if (str.empty()) str = ip`
unfoldable pub put_host : Bytes → Bytes → HostMap → HostMap
put_host word ip [] = (word, ip) ∷ []
put_host word ip (e ∷ es) =
    let rest = put_host word ip es in
    if bytes_eq e.0 word then (if length e.1 == 0 then (e.0, ip) else e) ∷ es else e ∷ rest

pub record HostsState : Type 0 where
  pub ip : Bytes
  pub word : Bytes
  pub host_ip_map_ : HostMap

-- A line feed or the sign of a comment.
abbrev pub is_line_break : ℕ → Bool
is_line_break ch = ch == 10 || ch == 35

-- Another separator of words.
abbrev pub is_word_break : ℕ → Bool
is_word_break ch = ch == 13 || ch == 9 || ch == 11 || ch == 32

-- A word that has ended, and the text behind it.
unfoldable pub end_word :
    (Inet → Bytes → Option Bytes) → Bool → Bool → Bytes → HostsState → Result (HostsState × Bytes)
end_word inet_pton disable_ipv6 line_break text s =
    let named : HostsState = record s {
      word = [];
      host_ip_map_ = put_host s.word s.ip s.host_ip_map_;
    } in
    let address : Result (HostsState × Bytes) = do
      af ← is_ip_address inet_pton (c_str s.word)
      ok (
          if wanted disable_ipv6 af
          then (record s { ip = s.word; word = [] }, text)
          else (record s { word = [] }, ignore_line 100000 text))
    in if length s.word == 0
      then ok (s, text)
      else if length s.ip == 0
      then (if line_break then ok (record s { word = [] }, text) else address)
      else ok (named, text)

-- The comment behind its sign is not read.
unfoldable pub skip_comment : ℕ → Bytes → Bytes
skip_comment ch rest = if ch == 35 then ignore_line 100000 rest else rest

-- The loop, on fuel.
unfoldable pub hosts_loop :
    (Inet → Bytes → Option Bytes) → Bool → ℕ → Bytes → HostsState → Result HostMap
hosts_loop inet_pton disable_ipv6 zero text s = err out_of_fuel
hosts_loop inet_pton disable_ipv6 (suc fuel) [] s =
    end_word inet_pton disable_ipv6 true [] s >>= λ r. ok r.0.host_ip_map_
hosts_loop inet_pton disable_ipv6 (suc fuel) (ch ∷ rest) s =
    let at_line =
      (end_word inet_pton disable_ipv6 true (skip_comment ch rest) s >>= λ r.
      hosts_loop inet_pton disable_ipv6 fuel r.1 (record r.0 { ip = [] })) in
    let at_word =
      (end_word inet_pton disable_ipv6 false rest s >>= λ r.
      hosts_loop inet_pton disable_ipv6 fuel r.1 r.0) in
    let longer = record s { word = s.word ++ ch ∷ [] } in
    let inside = hosts_loop inet_pton disable_ipv6 fuel rest longer in
    if is_line_break ch
    then at_line
    else if is_word_break ch
    then at_word
    else if leb 2048 (length longer.word)
    then err hosts_word_long
    else inside

abbrev pub no_hosts : HostsState
no_hosts = record { ip = []; word = []; host_ip_map_ = [] }

-- The constructor: a character less than the fuel is read.
unfoldable pub load_hosts : (Inet → Bytes → Option Bytes) → Bool → Bytes → Result HostMap
load_hosts inet_pton disable_ipv6 text =
    hosts_loop inet_pton disable_ipv6 (suc (length text)) text no_hosts

-- `hosts::response`
unfoldable pub response : HostMap → Bytes → Bytes
response hosts ip = elim (find_host ip hosts) [ none ↦ [] | some address ↦ address ]

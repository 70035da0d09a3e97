-- ===== src/Tests/Hosts.antt =====
-- A file of hosts.
use cdns.Dns.Hosts.{HostMap, load_hosts, response}
use cdns.Dns.Hosts.Lines.{
  line_feed, remark, Line, print_ending, print_names, print_lines, IsEnding, IsLine, first_address,
}
use cdns.Dns.Hosts.Read.{response-load_hosts}
use cdns.Network.Address.{Inet, ipv4, ipv6, is_ip_address}
use cdns.Prelude.{
  ◌==◌, if◌then◌else◌, Bytes, codes, bytes_eq, get_or, All, ok, ◌≡◌, refl, true, Option, none, some,
  List, [], ◌∷◌, arith,
}
use cdns.Sys.Text.{c_str}

-- One address of each family is known.
abbrev two_addresses : Inet → Bytes → Option Bytes
two_addresses ipv4 s = if bytes_eq s (codes "1.2") then some (1 ∷ 2 ∷ []) else none
two_addresses ipv6 s = if bytes_eq s (codes "::1") then some (0 ∷ 1 ∷ []) else none

abbrev hosts_lines : List Line
hosts_lines =
    record { address = codes "::1"; names = codes "a" ∷ []; ending = line_feed }
    ∷ record {
      address = codes "1.2";
      names = codes "a" ∷ codes "b" ∷ [];
      ending = remark (codes "x");
    }
    ∷ []

-- The family of an address, by its first character.
abbrev family_of : Line → Inet
family_of l = if get_or l.address 0 0 == b':' then ipv6 else ipv4

hosts_lines-IsLine : All (IsLine two_addresses family_of) hosts_lines
unfolding is_ip_address bytes_eq c_str print_names print_ending IsEnding
hosts_lines-IsLine = (
  (
    (((refl, refl), ((refl, refl), ((refl, refl), tt))), omega arith, omega arith),
    ((((refl, refl), tt), omega arith, omega arith), tt),
    tt,
    omega arith,
    refl,
  ),
  (
    (
      (((refl, refl), ((refl, refl), ((refl, refl), tt))), omega arith, omega arith),
      (
        (((refl, refl), tt), omega arith, omega arith),
        ((((refl, refl), tt), omega arith, omega arith), tt),
      ),
      (ground arith, tt),
      omega arith,
      refl,
    ),
    tt,
  ),
)

response-load_hosts_example :
    (hosts : HostMap) × (load_hosts two_addresses true (print_lines hosts_lines) ≡ ok hosts)
    × ((name : Bytes)
        → response hosts name ≡ elim (first_address true family_of name hosts_lines) [
          | none ↦ []
          | some address ↦ address
        ])
response-load_hosts_example =
    response-load_hosts two_addresses true family_of hosts_lines hosts_lines-IsLine

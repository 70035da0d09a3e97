-- ===== src/Dns/Hosts/Lines.antt =====
-- A file of hosts, line by line.
use cdns.Dns.Hosts.{wanted, HostMap, find_host, put_host, is_line_break, is_word_break}
use cdns.Dns.Hosts.Loaded.{IsHosts, find_host-put_host, put_host-IsHosts}
use cdns.Network.Address.{Inet, is_ip_address}
use cdns.Prelude.{
  if◌then◌else◌, Bytes, bytes_eq, length, All, ok, ◌<◌, ◌≡◌, ◌≢◌, Bool, false, ◌&&◌, ◌||◌, Option,
  none, some, List, [], ◌∷◌, ◌++◌, arith,
}
use cdns.Sys.Text.{c_str}

-- The end of a line: a line feed, or a comment.
pub data Ending : Type 0 where
  line_feed : Ending
  remark : Bytes → Ending

-- An address, names with a space in front of each, and the end.
pub record Line : Type 0 where
  pub address : Bytes
  pub names : List Bytes
  pub ending : Ending

unfoldable pub print_ending : Ending → Bytes
print_ending line_feed = []
print_ending (remark text) = 35 ∷ text

unfoldable pub print_names : List Bytes → Ending → Bytes
print_names [] ending = print_ending ending
print_names (n ∷ ns) ending = 32 ∷ n ++ print_names ns ending

unfoldable pub print_lines : List Line → Bytes
print_lines [] = []
print_lines (l ∷ ls) = l.address ++ (print_names l.names l.ending ++ 10 ∷ print_lines ls)

abbrev pub IsWord : Bytes → Type 0
IsWord w =
    All (λ ch. (is_line_break ch ≡ false) × (is_word_break ch ≡ false)) w
    × (0 < length w)
    × (length w < 2048)

unfoldable pub IsEnding : Ending → Type 0
IsEnding line_feed = Unit {0}
IsEnding (remark text) = All (λ ch. ch ≢ 10) text

-- An address of the family, words for names, and less than 100000 characters behind the address.
abbrev pub IsLine : (Inet → Bytes → Option Bytes) → (Line → Inet) → Line → Type 0
IsLine pton family l =
    IsWord l.address
    × All IsWord l.names
    × IsEnding l.ending
    × (length (print_names l.names l.ending) < 100000)
    × (is_ip_address pton (c_str l.address) ≡ ok (family l))

unfoldable pub is_named : Bytes → List Bytes → Bool
is_named name [] = false
is_named name (n ∷ ns) = bytes_eq n name || is_named name ns

-- The address of the first line that is kept and has the name.
unfoldable pub first_address : Bool → (Line → Inet) → Bytes → List Line → Option Bytes
first_address noipv6 family name [] = none
first_address noipv6 family name (l ∷ ls) =
    let rest = first_address noipv6 family name ls in
    if wanted noipv6 (family l) && is_named name l.names then some l.address else rest

unfoldable pub put_names : Bytes → List Bytes → HostMap → HostMap
put_names ip [] hosts = hosts
put_names ip (n ∷ ns) hosts = put_names ip ns (put_host n ip hosts)

unfoldable pub put_lines : Bool → (Line → Inet) → List Line → HostMap → HostMap
put_lines noipv6 family [] hosts = hosts
put_lines noipv6 family (l ∷ ls) hosts =
    let kept = put_lines noipv6 family ls (put_names l.address l.names hosts) in
    let rest = put_lines noipv6 family ls hosts in if wanted noipv6 (family l) then kept else rest

pub put_names-IsHosts :
    (ip : Bytes) (ns : List Bytes) (hosts : HostMap)
    → 0 < length ip
    → All IsWord ns
    → IsHosts hosts
    → IsHosts (put_names ip ns hosts)
unfolding put_names
put_names-IsHosts ip [] hosts i h v = v
put_names-IsHosts ip (n ∷ ns) hosts i h v =
    put_names-IsHosts ip ns (put_host n ip hosts) i h.1 (put_host-IsHosts n ip hosts h.0.1 i v)

find_host-put_names :
    (name ip : Bytes) (ns : List Bytes) (hosts : HostMap)
    → 0 < length ip
    → All IsWord ns
    → IsHosts hosts
    → find_host name (put_names ip ns hosts) ≡ elim (find_host name hosts) [
      | some address ↦ some address
      | none ↦ if is_named name ns then some ip else none
    ]
unfolding put_names is_named
find_host-put_names name ip [] hosts i h v = ground arith
find_host-put_names name ip (n ∷ ns) hosts i h v =
    let ih =
      find_host-put_names name ip ns (put_host n ip hosts) i h.1
        (put_host-IsHosts n ip hosts h.0.1 i v) in
    ground (arith, ih, find_host-put_host name n ip hosts v.1)

pub find_host-put_lines :
    (pton : Inet → Bytes → Option Bytes) (noipv6 : Bool) (family : Line → Inet) (name : Bytes)
    (ls : List Line) (hosts : HostMap)
    → All (IsLine pton family) ls
    → IsHosts hosts
    → find_host name (put_lines noipv6 family ls hosts) ≡ elim (find_host name hosts) [
      | some address ↦ some address
      | none ↦ first_address noipv6 family name ls
    ]
unfolding put_lines first_address
find_host-put_lines pton noipv6 family name [] hosts h v = ground arith
find_host-put_lines pton noipv6 family name (l ∷ ls) hosts h v =
    let i : 0 < length l.address = h.0.0.1 in
    let f = find_host-put_names name l.address l.names hosts i h.0.1 v in
    let kept =
      find_host-put_lines pton noipv6 family name ls (put_names l.address l.names hosts) h.1
        (put_names-IsHosts l.address l.names hosts i h.0.1 v) in
    ground (arith, f, kept, find_host-put_lines pton noipv6 family name ls hosts h.1 v)

-- ===== src/Dns/Hosts/Loaded.antt =====
-- Reading a file of hosts ends, with a map or an error.
use cdns.Dns.Filter.{keep}
use cdns.Dns.Filter.Load.{ignore_line}
use cdns.Dns.Filter.Loaded.{length-ignore_line}
use cdns.Dns.Hosts.{
  wanted, HostMap, find_host, put_host, HostsState, is_line_break, is_word_break, end_word,
  skip_comment, hosts_loop, no_hosts, load_hosts,
}
use cdns.Network.Address.{Inet, ipv4, ipv6, is_ip_address}
use cdns.Prelude.{
  leb, ◌==◌, if◌then◌else◌, Bool-cases, Option-cases, Bytes, bytes_eq, bytes_eq_iff, length, All,
  hosts_word_long, invalid_address, Result, err, ok, ℕ, zero, suc, ◌≤◌, ◌<◌, ◌≡◌, refl, ◌∙◌, ◌⊎◌,
  inl, inr, Bool, true, false, Option, none, some, [], ◌∷◌, ◌++◌, arith,
}
use cdns.Sys.Text.{c_str}

unfoldable pub OnceNamed : HostMap → Type 0
OnceNamed [] = Unit {0}
OnceNamed (e ∷ es) = (find_host e.0 es ≡ none) × OnceNamed es

abbrev pub IsNamed : Bytes × Bytes → Type 0
IsNamed e = (0 < length e.0) × (0 < length e.1)

-- No name stands twice, and no name and no address is empty.
abbrev pub IsHosts : HostMap → Type 0
IsHosts hosts = OnceNamed hosts × All IsNamed hosts

pub find_host-put_host :
    (name word ip : Bytes) (hosts : HostMap)
    → All IsNamed hosts
    → find_host name (put_host word ip hosts) ≡ elim (find_host name hosts) [
      | some address ↦ some address
      | none ↦ if bytes_eq word name then some ip else none
    ]
unfolding find_host put_host
find_host-put_host name word ip [] h = refl
find_host-put_host name word ip (e ∷ es) h = ground (
  arith,
  find_host-put_host name word ip es h.1,
  bytes_eq_iff e.0 name,
  bytes_eq_iff e.0 word,
  bytes_eq_iff word name,
)

put_host-OnceNamed :
    (word ip : Bytes) (hosts : HostMap) → IsHosts hosts → OnceNamed (put_host word ip hosts)
unfolding OnceNamed put_host find_host
put_host-OnceNamed word ip [] h = (refl, tt)
put_host-OnceNamed word ip (e ∷ es) h = elim (Bool-cases (bytes_eq e.0 word)) [
  | inl same ↦ rw same (ground (arith, h.0))
  | inr other ↦ rw other (
    find_host-put_host e.0 word ip es h.1.1
        ∙ rw h.0.0 (ground (arith, bytes_eq_iff e.0 word, bytes_eq_iff word e.0)),
    put_host-OnceNamed word ip es (h.0.1, h.1.1),
  )
]

put_host-All :
    (word ip : Bytes) (hosts : HostMap)
    → 0 < length word
    → 0 < length ip
    → All IsNamed hosts
    → All IsNamed (put_host word ip hosts)
unfolding put_host
put_host-All word ip [] w i h = ((w, i), tt)
put_host-All word ip (e ∷ es) w i h = elim (Bool-cases (bytes_eq e.0 word)) [
  | inl same ↦ rw same (let n : (length e.1 == 0) ≡ false = ground (arith, h.0.1) in rw n h)
  | inr other ↦ rw other (h.0, put_host-All word ip es w i h.1)
]

pub put_host-IsHosts :
    (word ip : Bytes) (hosts : HostMap)
    → 0 < length word
    → 0 < length ip
    → IsHosts hosts
    → IsHosts (put_host word ip hosts)
put_host-IsHosts word ip hosts w i v =
    (put_host-OnceNamed word ip hosts v, put_host-All word ip hosts w i v.1)

is_ip_address_cases :
    (pton : Inet → Bytes → Option Bytes) (str : Bytes)
    → ((af : Inet) × (is_ip_address pton str ≡ ok af))
      ⊎ (is_ip_address pton str ≡ err invalid_address)
unfolding is_ip_address
is_ip_address_cases pton str = elim (Option-cases (pton ipv4 str)) [
  | inr (a, e) ↦ inl (ipv4, rw (is_ip_address, e) refl)
  | inl e ↦ elim (Option-cases (pton ipv6 str)) [
    | inr (a, f) ↦ inl (ipv6, rw (is_ip_address, e, f) refl)
    | inl f ↦ inr (rw (is_ip_address, e, f) refl)
  ]
]

pub skip_comment-shorter : (ch : ℕ) (rest : Bytes) → length (skip_comment ch rest) ≤ length rest
unfolding skip_comment
skip_comment-shorter ch rest = ground (arith, length-ignore_line 100000 rest)

-- What the end of a word leaves to read, and the map.
abbrev pub Ends : Bytes → Result (HostsState × Bytes) → Type 0
Ends text r =
    ((t : HostsState × Bytes) × (r ≡ ok t) × (length t.1 ≤ length text) × IsHosts t.0.host_ip_map_)
    ⊎ (r ≡ err invalid_address)

pub end_word-Ends :
    (pton : Inet → Bytes → Option Bytes) (noipv6 line : Bool) (text : Bytes) (s : HostsState)
    → IsHosts s.host_ip_map_
    → Ends text (end_word pton noipv6 line text s)
unfolding end_word
end_word-Ends pton noipv6 line text s v = elim (Bool-cases (length s.word == 0)) [
  | inl blank ↦ inl ((s, text), rw blank refl, omega arith, v)
  | inr word ↦ elim (Bool-cases (length s.ip == 0)) [
    | inl first ↦ elim (Bool-cases line) [
      | inl over ↦ inl ((record s { word = [] }, text), rw (word, first, over) refl, omega arith, v)
      | inr more ↦ elim (is_ip_address_cases pton (c_str s.word)) [
        | inl (af, family) ↦ elim (Bool-cases (wanted noipv6 af)) [
          | inl keep ↦ inl (
            (record s { ip = s.word; word = [] }, text),
            rw (word, first, more, family, keep) refl,
            omega arith,
            v,
          )
          | inr skip ↦ inl (
            (record s { word = [] }, ignore_line 100000 text),
            rw (word, first, more, family, skip) refl,
            length-ignore_line 100000 text,
            v,
          )
        ]
        | inr bad ↦ inr (rw (word, first, more, bad) refl)
      ]
    ]
    | inr named ↦
        let w : 0 < length s.word = ground arith in
        let i : 0 < length s.ip = ground arith in
        inl (
          (record s { word = []; host_ip_map_ = put_host s.word s.ip s.host_ip_map_ }, text),
          rw (word, named) refl,
          omega arith,
          put_host-IsHosts s.word s.ip s.host_ip_map_ w i v,
        )
  ]
]

-- A map, or one of the two errors.
abbrev pub LoadsHosts : Result HostMap → Type 0
LoadsHosts r =
    ((hosts : HostMap) × (r ≡ ok hosts) × IsHosts hosts)
    ⊎ (r ≡ err invalid_address)
    ⊎ (r ≡ err hosts_word_long)

hosts_loop-LoadsHosts :
    (pton : Inet → Bytes → Option Bytes) (noipv6 : Bool) (fuel : ℕ) (text : Bytes) (s : HostsState)
    → length text < fuel
    → IsHosts s.host_ip_map_
    → LoadsHosts (hosts_loop pton noipv6 fuel text s)
unfolding hosts_loop
hosts_loop-LoadsHosts pton noipv6 zero text s lt v = absurd (omega arith)
hosts_loop-LoadsHosts pton noipv6 (suc fuel) [] s lt v =
    elim (end_word-Ends pton noipv6 true [] s v) [
      | inl (t, e, n, k) ↦ inl (t.0.host_ip_map_, rw e refl, k)
      | inr e ↦ inr (inl (rw e refl))
    ]
hosts_loop-LoadsHosts pton noipv6 (suc fuel) (ch ∷ rest) s lt v =
    elim (Bool-cases (is_line_break ch)) [
      | inl at_line ↦
          let c = skip_comment-shorter ch rest in
          elim (end_word-Ends pton noipv6 true (skip_comment ch rest) s v) [
            | inl (t, e, n, k) ↦
                rw (hosts_loop, at_line, e)
                  (hosts_loop-LoadsHosts pton noipv6 fuel t.1 (record t.0 { ip = [] })
                    (omega (arith, n, c, lt)) k)
            | inr e ↦ inr (inl (rw (at_line, e) refl))
          ]
      | inr inside ↦ elim (Bool-cases (is_word_break ch)) [
        | inl at_word ↦ elim (end_word-Ends pton noipv6 false rest s v) [
          | inl (t, e, n, k) ↦
              rw (hosts_loop, inside, at_word, e)
                (hosts_loop-LoadsHosts pton noipv6 fuel t.1 t.0 (omega (arith, n, lt)) k)
          | inr e ↦ inr (inl (rw (inside, at_word, e) refl))
        ]
        | inr letter ↦ elim (Bool-cases (leb 2048 (length (s.word ++ ch ∷ [])))) [
          | inl long ↦ inr (inr (rw (inside, letter, long) refl))
          | inr short ↦
              rw (hosts_loop, inside, letter, short)
                (hosts_loop-LoadsHosts pton noipv6 fuel rest (record s { word = s.word ++ ch ∷ [] })
                  (omega (arith, lt)) v)
        ]
      ]
    ]

-- Loading a file of hosts ends, with one of its two errors or with a map in which no name stands
-- twice and no name and no address is empty.
pub load_hosts-LoadsHosts :
    (pton : Inet → Bytes → Option Bytes) (noipv6 : Bool) (text : Bytes)
    → LoadsHosts (load_hosts pton noipv6 text)
unfolding load_hosts OnceNamed
load_hosts-LoadsHosts pton noipv6 text =
    hosts_loop-LoadsHosts pton noipv6 (suc (length text)) text no_hosts (omega arith) (tt, tt)

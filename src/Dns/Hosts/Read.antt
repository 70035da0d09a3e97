-- ===== src/Dns/Hosts/Read.antt =====
-- A file of hosts that is written line by line, read.
use cdns.Dns.Filter.Load.{ignore_line}
use cdns.Dns.Hosts.{
  wanted, HostMap, find_host, put_host, HostsState, is_line_break, is_word_break, end_word,
  skip_comment, hosts_loop, load_hosts, response,
}
use cdns.Dns.Hosts.Lines.{
  Ending, line_feed, remark, Line, print_ending, print_names, print_lines, IsWord, IsEnding, IsLine,
  first_address, put_names, put_lines, put_names-IsHosts, find_host-put_lines,
}
use cdns.Dns.Hosts.Loaded.{OnceNamed, IsHosts, put_host-IsHosts}
use cdns.Dns.Hosts.Steps.{hosts_run, run_word, run_break, run_line}
use cdns.Network.Address.{Inet, is_ip_address}
use cdns.Prelude.{
  ◌==◌, if◌then◌else◌, Bool-cases, Bytes, length, length-append, All, All-append, ok, ℕ, ◌-◌, ◌<◌,
  ◌≡◌, refl, sym, ap, ◌∙◌, ◌≢◌, inl, inr, Bool, true, false, Option, none, some, List, [], ◌∷◌,
  ◌++◌, append_assoc, arith,
}
use cdns.Sys.Text.{c_str}

pub ignore_line-append :
    (n : ℕ) (xs rest : Bytes)
    → All (λ ch. ch ≢ 10) xs
    → length xs < n
    → ignore_line n (xs ++ 10 ∷ rest) ≡ rest
unfolding ignore_line
ignore_line-append n [] rest h k = ground arith
ignore_line-append n (ch ∷ xs) rest h k =
    let ih = ignore_line-append (n - 1) xs rest h.1 (omega (arith, k)) in ground arith

word_no_feed :
    (w : Bytes)
    → All (λ ch. (is_line_break ch ≡ false) × (is_word_break ch ≡ false)) w
    → All (λ ch. ch ≢ 10) w
word_no_feed [] h = tt
word_no_feed (ch ∷ w) h = (ground (arith, h.0.0), word_no_feed w h.1)

names_no_feed :
    (ns : List Bytes) (ending : Ending)
    → All IsWord ns
    → IsEnding ending
    → All (λ ch. ch ≢ 10) (print_names ns ending)
unfolding print_names print_ending IsEnding
names_no_feed [] line_feed h e = tt
names_no_feed [] (remark text) h e = (ground arith, e)
names_no_feed (n ∷ ns) ending h e = (
  ground arith,
  All-append (λ ch. ch ≢ 10) n (print_names ns ending) (word_no_feed n h.0.0)
      (names_no_feed ns ending h.1 e),
)

module _ (pton : Inet → Bytes → Option Bytes) (noipv6 : Bool) where
  end_word_named :
      (line : Bool) (text : Bytes) (s : HostsState)
      → 0 < length s.word
      → 0 < length s.ip
      → end_word pton noipv6 line text s
        ≡ ok (record s { word = []; host_ip_map_ = put_host s.word s.ip s.host_ip_map_ }, text)
  unfolding end_word
  end_word_named line text s w i =
      let a : (length s.word == 0) ≡ false = ground (arith, w) in
      let b : (length s.ip == 0) ≡ false = ground (arith, i) in rw (a, b) refl

  end_word_address :
      (text : Bytes) (s : HostsState) (af : Inet)
      → 0 < length s.word
      → s.ip ≡ []
      → is_ip_address pton (c_str s.word) ≡ ok af
      → end_word pton noipv6 false text s
        ≡ ok (
            if wanted noipv6 af
            then (record s { ip = s.word; word = [] }, text)
            else (record s { word = [] }, ignore_line 100000 text))
  unfolding end_word
  end_word_address text s af w i e =
      let a : (length s.word == 0) ≡ false = ground (arith, w) in rw (a, i, e) refl

  -- The end of a line, with its comment.
  run_ending :
      (ending : Ending) (rest : Bytes) (s : HostsState) {t : HostsState}
      → IsEnding ending
      → length (print_ending ending) < 100000
      → IsHosts s.host_ip_map_
      → end_word pton noipv6 true rest s ≡ ok (t, rest)
      → hosts_run pton noipv6 (print_ending ending ++ 10 ∷ rest) s
        ≡ hosts_run pton noipv6 rest (record t { ip = [] })
  unfolding print_ending IsEnding skip_comment
  run_ending line_feed rest s h k v e = run_line pton noipv6 10 rest s refl v e
  run_ending (remark text) rest s {t} h k v e =
      let skip = ignore_line-append 100000 text rest h (omega (arith, k)) in
      run_line pton noipv6 35 (text ++ 10 ∷ rest) s {t = (t, rest)} refl v (rw skip e)

  -- Names behind an address.
  run_names :
      (ns : List Bytes) (ending : Ending) (rest w ip : Bytes) (hosts : HostMap)
      → IsWord w
      → 0 < length ip
      → All IsWord ns
      → IsEnding ending
      → length (print_names ns ending) < 100000
      → IsHosts hosts
      → hosts_run pton noipv6
          (print_names ns ending ++ 10 ∷ rest)
          (record { ip = ip; word = w; host_ip_map_ = hosts })
        ≡ hosts_run pton noipv6 rest
            (record { ip = []; word = []; host_ip_map_ = put_names ip (w ∷ ns) hosts })
  unfolding print_names put_names
  run_names [] ending rest w ip hosts g i h e k v =
      run_ending ending rest (record { ip = ip; word = w; host_ip_map_ = hosts }) e k v
        (end_word_named true rest (record { ip = ip; word = w; host_ip_map_ = hosts }) g.1 i)
  run_names (n ∷ ns) ending rest w ip hosts g i h e k v =
      let s : HostsState = record { ip = ip; word = w; host_ip_map_ = hosts } in
      let t : HostsState = record { ip = ip; word = []; host_ip_map_ = put_host w ip hosts } in
      let text = print_names ns ending ++ 10 ∷ rest in
      let vw = put_host-IsHosts w ip hosts g.1 i v in
      let a = append_assoc n (print_names ns ending) (10 ∷ rest) in
      let len = length-append n (print_names ns ending) in
      let named = end_word_named false (n ++ text) s g.1 i in
      rw a (
        run_break pton noipv6 32 (n ++ text) s {t = (t, n ++ text)} refl refl v named
        ∙ run_word pton noipv6 n text t h.0.0 (omega (arith, h.0.2))
        ∙ run_names ns ending rest n ip (put_host w ip hosts) h.0 i h.1 e (omega (arith, k, len))
            vw)

  end_word_alone :
      (text : Bytes) (s : HostsState)
      → s.ip ≡ []
      → 0 < length s.word
      → end_word pton noipv6 true text s ≡ ok (record s { word = [] }, text)
  unfolding end_word
  end_word_alone text s i w =
      let a : (length s.word == 0) ≡ false = ground (arith, w) in rw (a, i) refl

  -- What stands behind the address of a line.
  run_rest :
      (ns : List Bytes) (ending : Ending) (rest w : Bytes) (hosts : HostMap) (af : Inet)
      → IsWord w
      → is_ip_address pton (c_str w) ≡ ok af
      → All IsWord ns
      → IsEnding ending
      → length (print_names ns ending) < 100000
      → IsHosts hosts
      → hosts_run pton noipv6
          (print_names ns ending ++ 10 ∷ rest)
          (record { ip = []; word = w; host_ip_map_ = hosts })
        ≡ hosts_run pton noipv6 rest (record {
          ip = [];
          word = [];
          host_ip_map_ = if wanted noipv6 af then put_names w ns hosts else hosts;
        })
  unfolding print_names put_names
  run_rest [] ending rest w hosts af g f h e k v =
      let s : HostsState = record { ip = []; word = w; host_ip_map_ = hosts } in
      let same : (if wanted noipv6 af then hosts else hosts) ≡ hosts = ground arith in
      rw same (run_ending ending rest s e k v (end_word_alone rest s refl g.1))
  run_rest (n ∷ ns) ending rest w hosts af g f h e k v =
      let s : HostsState = record { ip = []; word = w; host_ip_map_ = hosts } in
      let text = print_names ns ending ++ 10 ∷ rest in
      let a = append_assoc n (print_names ns ending) (10 ∷ rest) in
      let len = length-append n (print_names ns ending) in
      let no_feed =
        All-append (λ ch. ch ≢ 10) n (print_names ns ending) (word_no_feed n h.0.0)
          (names_no_feed ns ending h.1 e) in
      let skip : ignore_line 100000 (n ++ text) ≡ rest =
        ap (ignore_line 100000) (sym a)
        ∙ ignore_line-append 100000 (n ++ print_names ns ending) rest no_feed (omega (arith, k)) in
      let end_of_word = end_word_address (n ++ text) s af g.1 refl f in
      elim (Bool-cases (wanted noipv6 af)) [
        | inl kept ↦
            let t : HostsState = record { ip = w; word = []; host_ip_map_ = hosts } in
            rw (a, kept)
              (run_break pton noipv6 32 (n ++ text) s {t = (t, n ++ text)} refl refl v
                  (rw kept at end_of_word)
                ∙ run_word pton noipv6 n text t h.0.0 (omega (arith, h.0.2))
                ∙ run_names ns ending rest n w hosts h.0 g.1 h.1 e (omega (arith, k, len)) v)
        | inr dropped ↦
            let t : HostsState = record { ip = []; word = []; host_ip_map_ = hosts } in
            rw (a, dropped)
              (run_break pton noipv6 32 (n ++ text) s {t = (t, rest)} refl refl v
                (rw (dropped, skip) at end_of_word))
      ]

  run_lines :
      (family : Line → Inet) (ls : List Line) (hosts : HostMap)
      → All (IsLine pton family) ls
      → IsHosts hosts
      → hosts_run pton noipv6 (print_lines ls) (record { ip = []; word = []; host_ip_map_ = hosts })
        ≡ ok (put_lines noipv6 family ls hosts)
  unfolding print_lines put_lines hosts_loop end_word
  run_lines family [] hosts h v = refl
  run_lines family (l ∷ ls) hosts h v =
      let rest = print_lines ls in
      let s : HostsState = record { ip = []; word = []; host_ip_map_ = hosts } in
      let named = put_names-IsHosts l.address l.names hosts h.0.0.1 h.0.1 v in
      let line =
        run_word pton noipv6 l.address (print_names l.names l.ending ++ 10 ∷ rest) s h.0.0.0
          (omega (arith, h.0.0.2))
        ∙ run_rest l.names l.ending rest l.address hosts (family l) h.0.0 h.0.4 h.0.1 h.0.2 h.0.3
            v in
      elim (Bool-cases (wanted noipv6 (family l))) [
        | inl kept ↦
            rw kept (
              (rw kept at line) ∙ run_lines family ls (put_names l.address l.names hosts) h.1 named)
        | inr dropped ↦ rw dropped ((rw dropped at line) ∙ run_lines family ls hosts h.1 v)
      ]

-- For lines of an address, names with a space in front of each and a line feed or a comment, where
-- words are shorter than 2048 characters, the address is one of its family, and less than 100000
-- characters stand behind it: the file of the lines is read, and the response for a name is the
-- address of the first line that has the name and whose family is kept, or empty where there is none.
pub response-load_hosts :
    (pton : Inet → Bytes → Option Bytes) (noipv6 : Bool) (family : Line → Inet) (ls : List Line)
    → All (IsLine pton family) ls
    → (hosts : HostMap) × (load_hosts pton noipv6 (print_lines ls) ≡ ok hosts)
      × ((name : Bytes)
          → response hosts name
            ≡ elim (first_address noipv6 family name ls) [ none ↦ [] | some address ↦ address ])
unfolding load_hosts OnceNamed response find_host
response-load_hosts pton noipv6 family ls h =
    let v : IsHosts [] = (tt, tt) in
    (
      put_lines noipv6 family ls [],
      run_lines pton noipv6 family ls [] h v,
      λ name. rw (response, find_host-put_lines pton noipv6 family name ls [] h v) refl,
    )

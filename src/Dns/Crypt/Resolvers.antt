-- ===== src/Dns/Crypt/Resolvers.antt =====
-- dns/crypt/srcz/resolver.cpp: the list of DNSCrypt servers in a file with columns. `inet_pton`,
-- `inet_ntop` and `sodium_hex2bin` are arguments. The largest number of `find_col` is none. The key and the
-- address are made in this order, which the source leaves open.
pub mod RoundTrip
use cdns.Dns.Crypt.Csv.{parse_line}
use cdns.Dns.Crypt.Keys.{bin2hex, hex2bin}
use cdns.Dns.Header.{header}
use cdns.Dns.Record.{hostname}
use cdns.Network.Address.{Inet, Address, find_char, new_address, ip_port}
use cdns.Prelude.{
  ltb, ◌==◌, if◌then◌else◌, Bytes, codes, bytes_eq, length, get_or, Error, out_of_fuel,
  no_provider_name, no_public_key, no_resolver_address, no_file, wrong_columns, Result, err, ok,
  ◌>>=◌, ℕ, zero, suc, Bool, true, false, not, ◌||◌, Option, none, some, List, [], ◌∷◌, ◌++◌,
}
use cdns.Sys.Ascii.{less, equal, greater, ascii_strcasecmp}
use cdns.Sys.Text.{c_str}

-- The fields of `resolver` that the list gives; `tcp` is the protocol.
pub record ListedResolver : Type 0 where
  pub name_ : Bytes
  pub host_name_ : Bytes
  pub pubkey_ : Bytes
  pub address : Address
  pub tcp : Bool
  pub dnssec_ : Bool
  pub namecoin_ : Bool
  pub logging_ : Bool

-- The loop of `find_col`, from a column on.
unfoldable pub find_col_from : ℕ → List Bytes → List Bytes → Bytes → Option ℕ
find_col_from i [] cols header = none
find_col_from i (h ∷ headers) cols header =
    let rest = find_col_from (suc i) headers cols header in
    if bytes_eq header h then (if ltb i (length cols) then some i else none) else rest

unfoldable pub find_col : List Bytes → List Bytes → Bytes → Option ℕ
find_col headers cols header = find_col_from 0 headers cols header

-- The text of a line in the column with a header, if there is one.
unfoldable pub column : List Bytes → List Bytes → Bytes → Option Bytes
column headers cols header = elim (find_col headers cols header) [
  | none ↦ none
  | some i ↦ some (get_or cols i [])
]

-- A column that must be there and must not be empty.
unfoldable pub required : Error → Option Bytes → Result Bytes
required e none = err e
required e (some t) = if length t == 0 then err e else ok t

-- Whether a column is there with a word, in any case.
unfoldable pub column_is : Bytes → Option Bytes → Bool
column_is word none = false
column_is word (some t) = elim (ascii_strcasecmp (c_str t) word) [
  | less ↦ false
  | equal ↦ true
  | greater ↦ false
]

-- Whether there is no such column, or one with the word.
abbrev pub missing_or : Bytes → Option Bytes → Bool
missing_or word cell = elim cell [ none ↦ true | some t ↦ column_is word (some t) ]

abbrev pub default_port : ℕ
default_port = 443

unfoldable pub parse_resolver :
    (Inet → Bytes → Option Bytes)
    → (Bytes → ℕ × Bytes)
    → Bool
    → List Bytes
    → List Bytes
    → Result ListedResolver
parse_resolver inet_pton sodium_hex2bin tcp headers cols =
    let cell = λ (header : Bytes). column headers cols header in
    do
      provider_name ← required no_provider_name (cell (codes "Provider name"))
      key ← required no_public_key (cell (codes "Provider public key"))
      ip ← required no_resolver_address (cell (codes "Resolver address"))
      pubkey ← hex2bin sodium_hex2bin key
      addr ← new_address inet_pton ip default_port
      ok (record {
        name_ = elim (cell (codes "Name")) [ none ↦ provider_name | some t ↦ t ];
        host_name_ = provider_name;
        pubkey_ = pubkey;
        address = addr;
        tcp = tcp;
        dnssec_ = missing_or (codes "yes") (cell (codes "DNSSEC validation"));
        namecoin_ = column_is (codes "yes") (cell (codes "Namecoin"));
        logging_ = column_is (codes "no") (cell (codes "No logs"));
      })

-- Whether the stream is good behind a line: it ended before the end of the text.
abbrev pub is_good : Bytes → Bool
is_good text = elim (find_char 10 text) [ none ↦ false | some i ↦ true ]

-- The resolver of a line, if the line has columns.
unfoldable pub line_resolver :
    (List Bytes → Result ListedResolver) → List Bytes → List Bytes → Result (List ListedResolver)
line_resolver parse headers cols =
    if length cols == 0
    then ok []
    else if not (length cols == length headers)
    then err wrong_columns
    else (parse cols >>= λ r. ok (r ∷ []))

-- The loop over the lines, on fuel.
unfoldable pub resolver_lines :
    ℕ → (List Bytes → Result ListedResolver) → List Bytes → Bytes → Result (List ListedResolver)
resolver_lines zero parse headers text = err out_of_fuel
resolver_lines (suc fuel) parse headers text =
    let more =
      (parse_line text >>= λ line. line_resolver parse headers line.0 >>= λ new.
      resolver_lines fuel parse headers line.1 >>= λ rest. ok (new ++ rest)) in
    let last = (parse_line text >>= λ line. line_resolver parse headers line.0) in
    if is_good text then more else last

-- The lines behind the first one, which has the headers.
unfoldable pub resolvers_behind :
    (List Bytes → List Bytes → Result ListedResolver)
    → List Bytes × Bytes
    → Result (List ListedResolver)
resolvers_behind parse line =
    if ltb (length line.0) 3 || ltb 50 (length line.0)
    then err wrong_columns
    else resolver_lines (suc (length line.1)) (parse line.0) line.0 line.1

-- `parse_resolvers_list`, of a file, if it can be read.
unfoldable pub parse_resolvers_list :
    (Inet → Bytes → Option Bytes)
    → (Bytes → ℕ × Bytes)
    → Bool
    → Option Bytes
    → Result (List ListedResolver)
parse_resolvers_list inet_pton sodium_hex2bin tcp none = err no_file
parse_resolvers_list inet_pton sodium_hex2bin tcp (some text) = do
  line ← parse_line text
  resolvers_behind (parse_resolver inet_pton sodium_hex2bin tcp) line

-- A line of `save_resolvers`: address, host name and public key.
unfoldable pub print_resolver : (Inet → Bytes → Bytes) → Address → Bytes → Bytes → Bytes → Bytes
print_resolver inet_ntop a hostname key rest =
    ip_port inet_ntop a ++ (b',' ∷ (hostname ++ (b',' ∷ (bin2hex key ++ 10 ∷ rest))))

unfoldable pub print_resolvers : (Inet → Bytes → Bytes) → List ListedResolver → Bytes
print_resolvers inet_ntop [] = []
print_resolvers inet_ntop (r ∷ rs) =
    print_resolver inet_ntop r.address r.host_name_ r.pubkey_ (print_resolvers inet_ntop rs)

abbrev pub saved_headers : List Bytes
saved_headers = codes "Resolver address" ∷ codes "Provider name" ∷ codes "Provider public key" ∷ []

-- `save_resolvers`: the file that is written.
unfoldable pub save_resolvers : (Inet → Bytes → Bytes) → List ListedResolver → Bytes
save_resolvers inet_ntop rs =
    codes "Resolver address,Provider name,Provider public key" ++ 10 ∷ print_resolvers inet_ntop rs

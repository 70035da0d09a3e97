-- ===== src/Dns/Crypt/Resolvers/RoundTrip.antt =====
-- The list of servers that `save_resolvers` writes is read by `parse_resolvers_list`.
use cdns.Dns.Crypt.Csv.{csv_push, csv_separator, csv_step, csv_finish, csv_loop, parse_line}
use cdns.Dns.Crypt.Csv.Written.{
  plain, IsText, IsField, print_field, print_line, parse_line-print_line,
}
use cdns.Dns.Crypt.Keys.{bin2hex, IsKey, HexLaw, hex2bin-bin2hex, IsHexCode, bin2hex_text}
use cdns.Dns.Crypt.Resolvers.{
  ListedResolver, find_col_from, find_col, column, required, column_is, default_port,
  parse_resolver, is_good, line_resolver, resolver_lines, resolvers_behind, parse_resolvers_list,
  print_resolver, print_resolvers, saved_headers, save_resolvers,
}
use cdns.Network.Address.{Inet, ipv4, ipv6, Address, find_char, ip_port}
use cdns.Network.Address.Texts.{TextLaws, new_address-ip_port}
use cdns.Prelude.{
  ◌==◌, Bool-cases, Option-cases, Bytes, codes, bytes_eq, length, length-append, All, All-map,
  Error, no_provider_name, no_public_key, no_resolver_address, ok, ℕ, zero, suc, ◌≤◌, ◌<◌, ◌≡◌,
  refl, inl, inr, Bool, true, false, Option, none, some, List, [], ◌∷◌, ◌++◌, map, arith,
}
use cdns.Sys.Text.{to_string}

-- A server with a name, a key of 32 bytes and an address of its family, whose texts a column may hold.
pub record IsSaved (ntop : Inet → Bytes → Bytes) (IsAddr : Inet → Bytes → Type 0)
    (r : ListedResolver) : Type 0 where
  pub family : IsAddr r.address.inet r.address.addr
  pub small_port : r.address.port < 65536
  pub named : 0 < length r.host_name_
  pub name_field : IsField (plain r.host_name_)
  pub address_field : IsField (plain (ip_port ntop r.address))
  pub key : IsKey r.pubkey_

-- What is read: the file has no names of its own and none of the three remarks, and of these the first
-- is taken for yes.
abbrev pub as_read : Bool → ListedResolver → ListedResolver
as_read tcp r = record {
  name_ = r.host_name_;
  host_name_ = r.host_name_;
  pubkey_ = r.pubkey_;
  address = r.address;
  tcp = tcp;
  dnssec_ = true;
  namecoin_ = false;
  logging_ = false;
}

good-cons : (c : ℕ) (s : Bytes) → is_good s ≡ true → is_good (c ∷ s) ≡ true
unfolding find_char
good-cons c s h = elim (Option-cases (find_char 10 s)) [
  | inl e ↦ let g = rw (is_good, e) at h in cc
  | inr (i, e) ↦ elim (Bool-cases (c == 10)) [
    | inl here ↦ rw (is_good, find_char, here) refl
    | inr there ↦ rw (is_good, find_char, there, e) refl
  ]
]

good-append : (t s : Bytes) → is_good s ≡ true → is_good (t ++ s) ≡ true
good-append [] s h = h
good-append (c ∷ t) s h = good-cons c (t ++ s) (good-append t s h)

good_end : (s : Bytes) → is_good (10 ∷ s) ≡ true
unfolding find_char
good_end s = refl

pub ip_port_some : (ntop : Inet → Bytes → Bytes) (a : Address) → 0 < length (ip_port ntop a)
unfolding ip_port
ip_port_some ntop a = by_family a.inet a.addr a.port
  where
    by_family :
        (family : Inet) (b : Bytes) (port : ℕ)
        → 0 < length (ip_port ntop (record { inet = family; addr = b; port = port }))
    by_family ipv4 b port = omega (arith, length-append (ntop ipv4 b) (b':' ∷ to_string port))
    by_family ipv6 b port = omega arith

bin2hex-IsField : (key : Bytes) → IsKey key → IsField (plain (bin2hex key))
bin2hex-IsField key h =
    let t = bin2hex_text key h in
    (
      All-map IsHexCode (IsText false) (bin2hex key)
          (λ c k. (omega (arith, k), omega (arith, k), omega (arith, k), inl (omega (arith, k))))
          t.0,
      omega (arith, t.2),
    )

module _ (a h k : Bytes) where
  saved_columns :
      let cols = a ∷ h ∷ k ∷ [] in
      (column saved_headers cols (codes "Provider name") ≡ some h)
      × (column saved_headers cols (codes "Provider public key") ≡ some k)
      × (column saved_headers cols (codes "Resolver address") ≡ some a)
      × (column saved_headers cols (codes "Name") ≡ none)
      × (column saved_headers cols (codes "DNSSEC validation") ≡ none)
      × (column saved_headers cols (codes "Namecoin") ≡ none)
      × (column saved_headers cols (codes "No logs") ≡ none)
  unfolding column find_col find_col_from bytes_eq
  saved_columns = (refl, refl, refl, refl, refl, refl, refl)

required-some : (e : Error) (t : Bytes) → 0 < length t → required e (some t) ≡ ok t
unfolding required
required-some e t h = ground (arith, h)

module _ (pton : Inet → Bytes → Option Bytes) (ntop : Inet → Bytes → Bytes)
    (IsAddr : Inet → Bytes → Type 0) (laws : TextLaws pton ntop IsAddr)
    (sodium_hex2bin : Bytes → ℕ × Bytes) (hex_law : HexLaw sodium_hex2bin) (tcp : Bool) where
  parse_saved :
      (r : ListedResolver)
      → IsSaved ntop IsAddr r
      → parse_resolver pton sodium_hex2bin tcp saved_headers
          (ip_port ntop r.address ∷ r.host_name_ ∷ bin2hex r.pubkey_ ∷ [])
        ≡ ok (as_read tcp r)
  unfolding parse_resolver column_is
  parse_saved r s =
      let c = saved_columns (ip_port ntop r.address) r.host_name_ (bin2hex r.pubkey_) in
      rw
        (
          c.0,
          c.1,
          c.2,
          c.3,
          c.4,
          c.5,
          c.6,
          required-some no_provider_name r.host_name_ s.named,
          required-some no_public_key (bin2hex r.pubkey_) (bin2hex_text r.pubkey_ s.key).1,
          required-some no_resolver_address (ip_port ntop r.address) (ip_port_some ntop r.address),
          hex2bin-bin2hex sodium_hex2bin r.pubkey_ hex_law s.key,
          new_address-ip_port pton ntop IsAddr laws r.address default_port s.family s.small_port,
        )
        refl

  saved_line :
      (r : ListedResolver) (rest : Bytes)
      → IsSaved ntop IsAddr r
      → (parse_line (print_resolver ntop r.address r.host_name_ r.pubkey_ rest)
          ≡ ok (ip_port ntop r.address ∷ r.host_name_ ∷ bin2hex r.pubkey_ ∷ [], rest))
        × (is_good (print_resolver ntop r.address r.host_name_ r.pubkey_ rest) ≡ true)
  unfolding print_resolver print_line print_field
  saved_line r rest s = (
    parse_line-print_line (plain (ip_port ntop r.address))
        (plain r.host_name_ ∷ plain (bin2hex r.pubkey_) ∷ []) rest s.address_field
        (s.name_field, (bin2hex-IsField r.pubkey_ s.key, tt)) (inr (λ e. cc)),
    good-append (ip_port ntop r.address) _ (
        good-cons 44 _ (
          good-append r.host_name_ _
            (good-cons 44 _ (good-append (bin2hex r.pubkey_) (10 ∷ rest) (good_end rest))))),
  )

  saved_lines :
      (rs : List ListedResolver) (fuel : ℕ)
      → length rs < fuel
      → All (IsSaved ntop IsAddr) rs
      → resolver_lines fuel
          (parse_resolver pton sodium_hex2bin tcp saved_headers)
          saved_headers
          (print_resolvers ntop rs)
        ≡ ok (map (as_read tcp) rs)
  unfolding resolver_lines line_resolver print_resolvers csv_loop csv_finish find_char
  saved_lines rs zero lt s = absurd (omega (arith, lt))
  saved_lines [] (suc fuel) lt s = refl
  saved_lines (r ∷ rs) (suc fuel) lt s =
      let line = saved_line r (print_resolvers ntop rs) s.0 in
      rw (line.1, line.0, parse_saved r s.0, saved_lines rs fuel (omega (arith, lt)) s.1) refl

  length-print_resolvers : (rs : List ListedResolver) → length rs ≤ length (print_resolvers ntop rs)
  unfolding print_resolvers print_resolver
  length-print_resolvers [] = omega arith
  length-print_resolvers (r ∷ rs) =
      let rest = 10 ∷ print_resolvers ntop rs in
      let key = bin2hex r.pubkey_ ++ rest in
      let name = r.host_name_ ++ (b',' ∷ key) in
      omega (
        arith,
        length-append (ip_port ntop r.address) (b',' ∷ name),
        length-append r.host_name_ (b',' ∷ key),
        length-append (bin2hex r.pubkey_) rest,
        length-print_resolvers rs,
      )

  saved_first :
      (rest : Bytes)
      → parse_line (codes "Resolver address,Provider name,Provider public key" ++ 10 ∷ rest)
        ≡ ok (saved_headers, rest)
  unfolding csv_loop csv_step csv_push csv_separator csv_finish
  saved_first rest = refl

  -- For functions of the system and of libsodium as documented, and servers with a name, a key of 32 bytes,
  -- an address of its family with a port of 16 bits, and texts that a column may hold: the list that is
  -- written of them, of whatever length, is read as the same servers in their order, with host name, key
  -- and address; each has the host name as its name and the protocol that is given, and is taken to
  -- validate with DNSSEC, and neither to know Namecoin nor to keep logs, whatever it was.
  pub parse_resolvers_list-save_resolvers :
      (rs : List ListedResolver)
      → All (IsSaved ntop IsAddr) rs
      → parse_resolvers_list pton sodium_hex2bin tcp (some (save_resolvers ntop rs))
        ≡ ok (map (as_read tcp) rs)
  unfolding parse_resolvers_list resolvers_behind save_resolvers
  parse_resolvers_list-save_resolvers rs s =
      rw
        (
          saved_first (print_resolvers ntop rs),
          saved_lines rs (suc (length (print_resolvers ntop rs)))
              (omega (arith, length-print_resolvers rs)) s,
        )
        refl

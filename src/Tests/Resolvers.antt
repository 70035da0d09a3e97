-- ===== src/Tests/Resolvers.antt =====
-- A list of one server, with a reader of hexadecimal texts in place of the one of libsodium.
use cdns.Dns.Crypt.Keys.{hex_digit, hex_byte, HexText, hex_end, hex_skip, hex_pair}
use cdns.Dns.Crypt.Resolvers.{ListedResolver, parse_resolvers_list, save_resolvers}
use cdns.Dns.Crypt.Resolvers.RoundTrip.{IsSaved, as_read, parse_resolvers_list-save_resolvers}
use cdns.Network.Address.{ipv6, ip_port}
use cdns.Prelude.{
  ltb, ◌==◌, if◌then◌else◌, Bytes, codes, slice, length, ok, ℕ, ◌+◌, ◌-◌, ◌*◌, ◌/◌, ◌%◌, ◌≤◌, ◌<◌,
  ◌≡◌, refl, ap, ◌∙◌, inl, inr, Bool, true, false, ◌||◌, some, [], ◌∷◌, arith,
}
use cdns.Sys.Text.{decimal, to_string}
use cdns.Tests.Address.{OneAddress, one_text, one_parser, one_laws}

abbrev skips : ℕ → Bool
skips c = c == b':' || c == 32

abbrev hex_value : ℕ → ℕ
hex_value c = if ltb c 58 then c - 48 else c - 55

pub read_hex : Bytes → ℕ × Bytes
read_hex [] = (0, [])
read_hex (c ∷ []) = if skips c then (0, []) else (1, [])
read_hex (c ∷ d ∷ t) =
    let skipped = read_hex (d ∷ t) in
    let r = read_hex t in
    let pair : ℕ × Bytes = (r.0, (hex_value c * 16 + hex_value d) ∷ r.1) in
    if skips c then skipped else pair

read_hex_skip : (c : ℕ) (t : Bytes) → skips c ≡ true → read_hex (c ∷ t) ≡ read_hex t
unfolding read_hex
read_hex_skip c [] h = rw h refl
read_hex_skip c (d ∷ t) h = rw h refl

hex_digit_value : (n : ℕ) → n < 16 → (skips (hex_digit n) ≡ false) × (hex_value (hex_digit n) ≡ n)
hex_digit_value n h = ground arith

read_hex_pair :
    (b : ℕ) (t : Bytes) → b < 256 → read_hex (hex_byte b t) ≡ ((read_hex t).0, b ∷ (read_hex t).1)
unfolding read_hex
read_hex_pair b t h =
    let high = hex_digit_value (b / 16) (omega (arith, h)) in
    let low = hex_digit_value (b % 16) (omega arith) in
    let whole : b / 16 * 16 + b % 16 ≡ b = omega arith in rw (high.0, high.1, low.1, whole) refl

pub read_hex-HexLaw : (t key : Bytes) → HexText t key → length key ≤ 32 → read_hex t ≡ (0, key)
unfolding read_hex
read_hex-HexLaw text bytes hex_end n = refl
read_hex-HexLaw text bytes (hex_skip {t} {key} c h s) n =
    read_hex_skip c t (elim h [ inl e ↦ ground (arith, e) | inr e ↦ ground (arith, e) ])
    ∙ read_hex-HexLaw t key s n
read_hex-HexLaw text bytes (hex_pair {t} {key} b h s) n =
    read_hex_pair b t h
    ∙ ap (λ (r : ℕ × Bytes). (r.0, b ∷ r.1)) (read_hex-HexLaw t key s (omega (arith, n)))

abbrev pub listed_server : ListedResolver
listed_server = record {
  name_ = codes "short";
  host_name_ = codes "2.host";
  pubkey_ = slice (λ i. i) 0 32;
  address = record { inet = ipv6; addr = 0 ∷ 1 ∷ []; port = 443 };
  tcp = false;
  dnssec_ = false;
  namecoin_ = true;
  logging_ = true;
}

pub listed_server-IsSaved : IsSaved one_text OneAddress listed_server
unfolding ip_port slice to_string decimal
listed_server-IsSaved = record {
  family = refl;
  small_port = omega arith;
  named = omega arith;
  name_field = (ground arith, omega arith);
  address_field = (ground arith, omega arith);
  key = (omega arith, refl);
}

parse_resolvers_list-save_resolvers_example :
    parse_resolvers_list one_parser read_hex true
      (some (save_resolvers one_text (listed_server ∷ listed_server ∷ [])))
    ≡ ok (as_read true listed_server ∷ as_read true listed_server ∷ [])
parse_resolvers_list-save_resolvers_example =
    parse_resolvers_list-save_resolvers one_parser one_text OneAddress one_laws read_hex
      read_hex-HexLaw true (listed_server ∷ listed_server ∷ [])
      (listed_server-IsSaved, (listed_server-IsSaved, tt))

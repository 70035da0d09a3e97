-- ===== src/Tests/Address.antt =====
-- Addresses and their texts, with one address of each family.
use cdns.Network.Address.{Inet, ipv4, ipv6, new_address, ip_port}
use cdns.Network.Address.Texts.{TextLaws, new_address-ip_port}
use cdns.Prelude.{
  if◌then◌else◌, Bytes, codes, bytes_eq, length, ok, ◌<◌, ◌≡◌, refl, sym, ap, Option, none, some,
  [], ◌∷◌, arith,
}

abbrev pub OneAddress : Inet → Bytes → Type 0
OneAddress ipv4 a = a ≡ 10 ∷ 0 ∷ 0 ∷ 1 ∷ []
OneAddress ipv6 a = a ≡ 0 ∷ 1 ∷ []

abbrev pub one_text : Inet → Bytes → Bytes
one_text ipv4 a = codes "1.2"
one_text ipv6 a = codes "::1"

abbrev pub one_parser : Inet → Bytes → Option Bytes
one_parser ipv4 s = if bytes_eq s (codes "1.2") then some (10 ∷ 0 ∷ 0 ∷ 1 ∷ []) else none
one_parser ipv6 s = if bytes_eq s (codes "::1") then some (0 ∷ 1 ∷ []) else none

one_back :
    (family : Inet) (a : Bytes)
    → OneAddress family a
    → one_parser family (one_text family a) ≡ some a
unfolding bytes_eq
one_back ipv4 a e = ap some (sym e)
one_back ipv6 a e = ap some (sym e)

one_some_text : (family : Inet) (a : Bytes) → OneAddress family a → 0 < length (one_text family a)
one_some_text ipv4 a e = omega arith
one_some_text ipv6 a e = omega arith

pub one_laws : TextLaws one_parser one_text OneAddress
one_laws = record {
  back = one_back;
  some_text = one_some_text;
  plain4 = λ a e. ground arith;
  plain6 = λ a e. ground arith;
}

new_address-ip_port_example :
    new_address one_parser
      (ip_port one_text (record { inet = ipv6; addr = 0 ∷ 1 ∷ []; port = 53 }))
      9
    ≡ ok (record { inet = ipv6; addr = 0 ∷ 1 ∷ []; port = 53 })
new_address-ip_port_example =
    new_address-ip_port one_parser one_text OneAddress one_laws
      (record { inet = ipv6; addr = 0 ∷ 1 ∷ []; port = 53 }) 9 refl (omega arith)

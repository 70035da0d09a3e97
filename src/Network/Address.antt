-- ===== src/Network/Address.antt =====
-- network/address.hxx and network/srcz/address.cpp: addresses of the two families with their ports, and
-- their texts. `inet_pton` and `inet_ntop` of the system are arguments: the bytes that a text stands
-- for, if it is an address of the family, and the text of bytes.
pub mod Texts
use cdns.Prelude.{
  ltb, ◌==◌, if◌then◌else◌, Bytes, bytes_eq, length, take, drop, invalid_address, blank_address,
  invalid_bracket, number_clamped, number_syntax, number_range, Result, err, ok, guard, ◌>>=◌, ◌>>◌,
  ℕ, suc, ◌+◌, ◌-◌, Bool, true, false, not, ◌&&◌, ◌||◌, Option, none, some, [], ◌∷◌, ◌++◌,
}
use cdns.Sys.Text.{front_is, c_str, to_string, strtol}

pub data Inet : Type 0 where
  ipv4 ipv6 : Inet

-- The family, the bytes of the address and the port.
pub record Address : Type 0 where
  pub inet : Inet
  pub addr : Bytes
  pub port : ℕ

-- `network::is_ip_address`
unfoldable pub is_ip_address : (Inet → Bytes → Option Bytes) → Bytes → Result Inet
is_ip_address inet_pton str = elim (inet_pton ipv4 str) [
  | some a ↦ ok ipv4
  | none ↦ elim (inet_pton ipv6 str) [ some a ↦ ok ipv6 | none ↦ err invalid_address ]
]

-- `std::string::find` and `std::string::rfind` of a character.
unfoldable pub find_char : ℕ → Bytes → Option ℕ
find_char ch [] = none
find_char ch (c ∷ s) =
    let rest = find_char ch s in
    if c == ch then some 0 else elim rest [ none ↦ none | some i ↦ some (suc i) ]

unfoldable pub rfind_char : ℕ → Bytes → Option ℕ
rfind_char ch [] = none
rfind_char ch (c ∷ s) = elim (rfind_char ch s) [
  | some i ↦ some (suc i)
  | none ↦ if c == ch then some 0 else none
]

-- `ip_port_t`
pub record IpPort : Type 0 where
  pub ip : Bytes
  pub port : Bytes
  pub ipv6 : Bool

-- The text in brackets, and what stands behind a colon that follows.
unfoldable pub split_bracket : Bytes → ℕ → Result IpPort
split_bracket ip_port nsr = elim (find_char b']' ip_port) [
  | none ↦ err invalid_bracket
  | some ne ↦
      if ne == 1
      then err invalid_bracket
      else ok (record {
        ip = take (ne - 1) (drop 1 ip_port);
        port = if nsr == 1 + ne then drop (1 + nsr) ip_port else [];
        ipv6 = true;
      })
]

-- `detail::split`; the place of a colon that is missing is 0, which no colon behind a bracket has.
unfoldable pub split : Bytes → Result IpPort
split ip_port =
    let whole : Bool → IpPort = λ v6. record { ip = ip_port; port = []; ipv6 = v6 } in
    if length ip_port == 0
    then err blank_address
    else if front_is b'[' ip_port
    then elim (rfind_char b':' ip_port) [
      | some nsr ↦ split_bracket ip_port nsr
      | none ↦ split_bracket ip_port 0
    ]
    else elim (rfind_char b':' ip_port) [
      | none ↦ ok (whole false)
      | some nsr ↦ elim (find_char b':' ip_port) [
        | none ↦ ok (whole false)
        | some ns ↦
            if ns == nsr
            then ok (record { ip = take nsr ip_port; port = drop (1 + nsr) ip_port; ipv6 = false })
            else ok (whole true)
      ]
    ]

-- `detail::str2u16`
unfoldable pub str2u16 : Bytes → Result ℕ
str2u16 str =
    let val = strtol (c_str str) in
    do
      guard
          (not
            (val.magnitude == (if val.negative then 9223372036854775808 else 9223372036854775807)))
          number_clamped
      guard (length val.rest == 0 || front_is b' ' val.rest) number_syntax
      guard (not ((val.negative && ltb 0 val.magnitude) || ltb 65535 val.magnitude)) number_range
      ok val.magnitude

-- `detail::make_address`
unfoldable pub make_address : (Inet → Bytes → Option Bytes) → Inet → Bytes → ℕ → Result Address
make_address inet_pton family ip port = elim (inet_pton family (c_str ip)) [
  | none ↦ err invalid_address
  | some a ↦ ok (record { inet = family; addr = a; port = port })
]

-- `address (ip_port, port)`
unfoldable pub new_address : (Inet → Bytes → Option Bytes) → Bytes → ℕ → Result Address
new_address inet_pton ip_port default_port = do
  a ← split ip_port
  port ← (if length a.port == 0 then ok default_port else str2u16 a.port)
  make_address inet_pton (if a.ipv6 then ipv6 else ipv4) a.ip port

-- `address::ip_port`
unfoldable pub ip_port : (Inet → Bytes → Bytes) → Address → Bytes
ip_port inet_ntop a =
    let text = inet_ntop a.inet a.addr in
    elim a.inet [
      | ipv4 ↦ text ++ b':' ∷ to_string a.port
      | ipv6 ↦ b'[' ∷ text ++ b']' ∷ b':' ∷ to_string a.port
    ]

-- `operator==`: for the second family the arrays of bytes are compared as pointers, which are the same
-- for one object alone.
unfoldable pub address_eq : Bool → Address → Address → Bool
address_eq same_object a b = elim a.inet [
  | ipv4 ↦ elim b.inet [ ipv4 ↦ bytes_eq a.addr b.addr && a.port == b.port | ipv6 ↦ false ]
  | ipv6 ↦ elim b.inet [ ipv4 ↦ false | ipv6 ↦ same_object && a.port == b.port ]
]

-- ===== src/Network/Address/Texts.antt =====
-- Addresses and their texts: `address::ip_port` and the constructor from a text, and `operator==`.
use cdns.Network.Address.{
  Inet, ipv4, ipv6, Address, find_char, rfind_char, split_bracket, split, str2u16, make_address,
  new_address, ip_port,
}
use cdns.Prelude.{
  ltb, ◌==◌, if◌then◌else◌, Bytes, length, take, drop, length-append, All, All-map, ok, ℕ, suc, ◌+◌,
  ◌-◌, ◌<◌, ◌≡◌, refl, sym, ap, ◌∙◌, ◌≢◌, Bool, true, false, Option, none, some, [], ◌∷◌, ◌++◌,
  append_assoc, arith,
}
use cdns.Sys.Text.{
  to_string, is_digit, strtol-to_string, to_string-All, length-to_string, c_str-All,
}

-- Neither a colon nor a bracket nor a zero is in a text.
abbrev pub IsPlain : Bytes → Type 0
IsPlain = All (λ c. (c ≢ b':') × (c ≢ b'[') × (c ≢ b']') × (c ≢ 0))

-- A text in brackets has no closing bracket and no zero.
abbrev pub IsBracketed : Bytes → Type 0
IsBracketed = All (λ c. (c ≢ b']') × (c ≢ 0))

-- What the system documents of its two functions: the text of an address is not empty and stands for it,
-- and has the characters of its family.
pub record TextLaws (pton : Inet → Bytes → Option Bytes) (ntop : Inet → Bytes → Bytes)
    (IsAddr : Inet → Bytes → Type 0) : Type 0 where
  pub back : (family : Inet) (a : Bytes) → IsAddr family a → pton family (ntop family a) ≡ some a
  pub some_text : (family : Inet) (a : Bytes) → IsAddr family a → 0 < length (ntop family a)
  pub plain4 : (a : Bytes) → IsAddr ipv4 a → IsPlain (ntop ipv4 a)
  pub plain6 : (a : Bytes) → IsAddr ipv6 a → IsBracketed (ntop ipv6 a)

find_char-append :
    (ch : ℕ) (t rest : Bytes)
    → All (λ c. c ≢ ch) t
    → find_char ch (t ++ ch ∷ rest) ≡ some (length t)
unfolding find_char
find_char-append ch [] rest h = ground arith
find_char-append ch (c ∷ t) rest h =
    let e : (c == ch) ≡ false = ground (arith, h.0) in rw (e, find_char-append ch t rest h.1) refl

rfind_char-none : (ch : ℕ) (t : Bytes) → All (λ c. c ≢ ch) t → rfind_char ch t ≡ none
unfolding rfind_char
rfind_char-none ch [] h = refl
rfind_char-none ch (c ∷ t) h =
    let e : (c == ch) ≡ false = ground (arith, h.0) in rw (rfind_char-none ch t h.1, e) refl

rfind_char-append :
    (ch : ℕ) (t rest : Bytes)
    → All (λ c. c ≢ ch) rest
    → rfind_char ch (t ++ ch ∷ rest) ≡ some (length t)
unfolding rfind_char
rfind_char-append ch [] rest h = rw (rfind_char-none ch rest h) (ground arith)
rfind_char-append ch (c ∷ t) rest h = rw (rfind_char-append ch t rest h) refl

text_parts :
    (t rest : Bytes) (x : ℕ)
    → (take (length t) (t ++ x ∷ rest) ≡ t) × (drop (suc (length t)) (t ++ x ∷ rest) ≡ rest)
text_parts [] rest x = (refl, refl)
text_parts (c ∷ t) rest x = let ih = text_parts t rest x in (ap (◌∷◌ c) ih.0, ih.1)

str2u16-to_string : (n : ℕ) → n < 65536 → str2u16 (to_string n) ≡ ok n
unfolding str2u16
str2u16-to_string n small =
    let digits = to_string-All n in
    let whole = c_str-All (to_string n) (
      All-map (λ c. is_digit c ≡ true) (λ c. c ≢ 0) (to_string n) (λ c d. ground (arith, d))
        digits) in
    let read = strtol-to_string n (omega (arith, small)) in
    let free : (n == 9223372036854775807) ≡ false = ground (arith, small) in
    let fits : ltb 65535 n ≡ false = ground (arith, small) in rw (whole, read, free, fits) refl

no_colon : (n : ℕ) → All (λ c. c ≢ b':') (to_string n)
no_colon n =
    All-map (λ c. is_digit c ≡ true) (λ c. c ≢ b':') (to_string n) (λ c d. ground (arith, d))
      (to_string-All n)

split4 :
    (t port : Bytes)
    → 0 < length t
    → IsPlain t
    → All (λ c. c ≢ b':') port
    → split (t ++ b':' ∷ port) ≡ ok (record { ip = t; port = port; ipv6 = false })
unfolding split
split4 [] port some_text h p = absurd (omega (arith, some_text))
split4 (c ∷ t) port some_text h p =
    let open_bracket : (c == b'[') ≡ false = ground (arith, h.0.1) in
    let last = rfind_char-append b':' (c ∷ t) port p in
    let colons =
      All-map (λ c. (c ≢ b':') × (c ≢ b'[') × (c ≢ b']') × (c ≢ 0)) (λ c. c ≢ b':') (c ∷ t)
        (λ c k. k.0) h in
    let first = find_char-append b':' (c ∷ t) port colons in
    let same : (length (c ∷ t) == length (c ∷ t)) ≡ true = ground arith in
    let parts = text_parts (c ∷ t) port b':' in
    let n : 1 + length (c ∷ t) ≡ suc (length (c ∷ t)) = omega arith in
    let filled : (length (c ∷ t ++ b':' ∷ port) == 0) ≡ false = ground arith in
    rw (filled, open_bracket, last, first, same, n, parts.0, parts.1) refl

split6 :
    (t port : Bytes)
    → 0 < length t
    → IsBracketed t
    → All (λ c. c ≢ b':') port
    → split (b'[' ∷ t ++ b']' ∷ b':' ∷ port) ≡ ok (record { ip = t; port = port; ipv6 = true })
unfolding split split_bracket find_char
split6 t port some_text h p =
    let whole = b'[' ∷ t ++ b']' ∷ b':' ∷ port in
    let inner = b'[' ∷ t ++ b']' ∷ [] in
    let same : inner ++ b':' ∷ port ≡ whole = append_assoc (b'[' ∷ t) (b']' ∷ []) (b':' ∷ port) in
    let last = rfind_char-append b':' inner port p in
    let closing : find_char b']' (b'[' ∷ (t ++ b']' ∷ b':' ∷ port)) ≡ some (suc (length t)) =
      find_char-append b']' (b'[' ∷ t) (b':' ∷ port)
        (ground arith, All-map (λ c. (c ≢ b']') × (c ≢ 0)) (λ c. c ≢ b']') t (λ c k. k.0) h) in
    let k : (suc (length t) == 1) ≡ false = ground (arith, some_text) in
    let n : length inner ≡ suc (suc (length t)) = omega (arith, length-append t (b']' ∷ [])) in
    let at : (suc (suc (length t)) == 1 + suc (length t)) ≡ true = ground arith in
    let parts = text_parts t (b':' ∷ port) b']' in
    let behind = text_parts inner port b':' in
    let last' : rfind_char b':' whole ≡ some (suc (suc (length t))) =
      ap (rfind_char b':') (sym same) ∙ last ∙ ap some n in
    let e1 : suc (length t) - 1 ≡ length t = omega arith in
    let e2 : 1 + suc (suc (length t)) ≡ suc (length inner) = omega (arith, n) in
    let tail : drop (suc (length inner)) whole ≡ port =
      ap (drop (suc (length inner))) (sym same) ∙ behind.1 in
    let filled : (suc (length (t ++ b']' ∷ b':' ∷ port)) == 0) ≡ false = ground arith in
    rw (filled, last', closing, k, at, e1, e2, tail, parts.0) refl

module _ (pton : Inet → Bytes → Option Bytes) (ntop : Inet → Bytes → Bytes)
    (IsAddr : Inet → Bytes → Type 0) (laws : TextLaws pton ntop IsAddr) where
  -- A text without zeros, with the port of an address behind it, is made an address of its bytes.
  text_address :
      (family : Inet) (a : Bytes) (port default_port : ℕ)
      → IsAddr family a
      → port < 65536
      → All (λ c. c ≢ 0) (ntop family a)
      → (text : Bytes) (v6 : Bool) → (if v6 then ipv6 else ipv4) ≡ family
      → split text ≡ ok (record { ip = ntop family a; port = to_string port; ipv6 = v6 })
      → new_address pton text default_port ≡ ok (record { inet = family; addr = a; port = port })
  unfolding new_address make_address
  text_address family a port default_port i small z text v6 f e =
      let filled : (length (to_string port) == 0) ≡ false = ground (arith, length-to_string port) in
      rw
        (
          e,
          filled,
          str2u16-to_string port small,
          f,
          make_address,
          c_str-All (ntop family a) z,
          laws.back family a i,
        )
        (rw f refl)

  -- For functions of the system as documented, an address of its family with a port of 16 bits, and any
  -- default port: the text of the address with its port is read as that address.
  pub new_address-ip_port :
      (a : Address) (default_port : ℕ)
      → IsAddr a.inet a.addr
      → a.port < 65536
      → new_address pton (ip_port ntop a) default_port ≡ ok a
  unfolding ip_port
  new_address-ip_port a default_port i small = by_family a.inet a.addr a.port i small
    where
      by_family :
          (family : Inet) (b : Bytes) (port : ℕ)
          → IsAddr family b
          → port < 65536
          → new_address pton
              (ip_port ntop (record { inet = family; addr = b; port = port }))
              default_port
            ≡ ok (record { inet = family; addr = b; port = port })
      by_family ipv4 b port i small =
          let h = laws.plain4 b i in
          let z =
            All-map (λ c. (c ≢ b':') × (c ≢ b'[') × (c ≢ b']') × (c ≢ 0)) (λ c. c ≢ 0) (ntop ipv4 b)
              (λ c k. k.3) h in
          text_address ipv4 b port default_port i small z _ false refl
            (split4 (ntop ipv4 b) (to_string port) (laws.some_text ipv4 b i) h (no_colon port))
      by_family ipv6 b port i small =
          let h = laws.plain6 b i in
          let z = All-map (λ c. (c ≢ b']') × (c ≢ 0)) (λ c. c ≢ 0) (ntop ipv6 b) (λ c k. k.1) h in
          text_address ipv6 b port default_port i small z _ true refl
            (split6 (ntop ipv6 b) (to_string port) (laws.some_text ipv6 b i) h (no_colon port))

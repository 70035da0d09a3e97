-- ===== src/Dns/Answer.antt =====
-- dns/srcz/query.cpp: `add_answer`, `set_txt_answer`, `find_txt_answers`, `get_txt_answer` and
-- `is_dnscrypt_certificate_request`.
pub mod Written
pub mod Added
pub mod Txt
use cdns.Dns.Constants.{max_size, header_size, rr_header_size, class_internet, type_a, type_txt}
use cdns.Dns.Header.{MessageHeader, header, set_header}
use cdns.Dns.Record.{Rr, get_rr_question, get_rr, hostname, skip_questions, get_rrs}
use cdns.Dns.Ttl.{no_header}
use cdns.Network.Address.{Inet, ipv4, ipv6, Address, new_address}
use cdns.Network.Packet.{Packet, reserve}
use cdns.Prelude.{
  ltb, ◌==◌, if◌then◌else◌, Bytes, bytes_eq, write, write_list, write16, write32, length,
  message_too_large, unsupported, txt_too_long, blank_hostname, Result, err, ok, guard, ◌>>=◌, ◌>>◌,
  ℕ, zero, suc, ◌+◌, ◌%◌, Bool, true, false, not, ◌&&◌, Option, List, [], ◌∷◌, map,
}

-- The loop over answers that are skipped.
unfoldable pub skip_rrs : ℕ → ℕ → Packet → Result ℕ
skip_rrs zero off p = ok off
skip_rrs (suc n) off p = do r ← get_rr off p; skip_rrs n r.next p

-- The record behind the name, and the new size: `off` is the place of the name.
unfoldable pub put_answer : Bytes → ℕ → ℕ → ℕ → Packet → Packet
put_answer rdata typ ttl off p =
    let name = write (write p.bytes off 0xc0) (off + 1) header_size in
    let type_class = write16 (write16 name (off + 2) typ) (off + 4) class_internet in
    let rr = write16 (write32 type_class (off + 6) ttl) (off + 10) (length rdata) in
    record p { size = (off + 12 + length rdata) % 65536; bytes = write_list rr (off + 12) rdata }

unfoldable pub ensure_room : ℕ → Packet → Packet
ensure_room new_size p = if ltb p.reserved new_size then reserve new_size p else p

-- `++head.ancount; head.qr = true`
abbrev pub answered : MessageHeader → MessageHeader
answered h = record h { ancount = (h.ancount + 1) % 65536; qr = true }

-- `add_answer (data, typ, ttl)`
unfoldable pub add_answer : Bytes → ℕ → ℕ → Packet → Result Packet
add_answer rdata typ ttl p =
    let new_size = p.size + (2 + rr_header_size + length rdata) in
    let p1 = ensure_room new_size p in
    let head = header p1 in
    let p2 = set_header (answered head) p1 in
    if ltb max_size new_size then err message_too_large else do
      q ← skip_questions head.qdcount header_size no_header p2
      off ← skip_rrs head.ancount q.0 p2
      guard (head.qdcount == 1) unsupported
      ok (put_answer rdata typ ttl off p2)

-- `set_txt_answer`: the text behind its length.
unfoldable pub set_txt_answer : Bytes → ℕ → Packet → Result Packet
set_txt_answer txt_data ttl p =
    if ltb 255 (length txt_data)
    then err txt_too_long
    else add_answer (length txt_data ∷ txt_data) type_txt ttl p

unfoldable pub txt_data : List Rr → List Bytes
txt_data [] = []
txt_data (r ∷ rs) =
    if r.rr.type == type_txt && r.rr.class == class_internet
    then r.rdata ∷ txt_data rs
    else txt_data rs

unfoldable pub find_txt_answers : Packet → Result (List Bytes)
find_txt_answers p = do
  q ← skip_questions (header p).qdcount header_size no_header p
  rs ← get_rrs (header p).ancount q.0 p
  ok (txt_data rs)

-- Without the length byte.
unfoldable pub drop_first : Bytes → Bytes
drop_first [] = []
drop_first (x ∷ xs) = xs

unfoldable pub get_txt_answer : Packet → Result (List Bytes)
get_txt_answer p = do arrs ← find_txt_answers p; ok (map drop_first arrs)

-- `if ('.' != hostname.back()) hostname.push_back ('.')`, the name not being empty.
unfoldable pub with_last_dot : Bytes → Bytes
with_last_dot [] = b'.' ∷ []
with_last_dot (c ∷ []) = if c == b'.' then c ∷ [] else c ∷ b'.' ∷ []
with_last_dot (c ∷ d ∷ s) = c ∷ with_last_dot (d ∷ s)

unfoldable pub any_cert_question : ℕ → ℕ → Bytes → Packet → Result Bool
any_cert_question zero off hostname p = ok false
any_cert_question (suc n) off hostname p = do
  q ← get_rr_question off p
  let rest = any_cert_question n q.next hostname p
  if bytes_eq q.owner hostname && q.rr.type == type_txt && q.rr.class == class_internet
      then ok true
      else rest

unfoldable pub is_dnscrypt_certificate_request : Bytes → Packet → Result Bool
is_dnscrypt_certificate_request [] p = err blank_hostname
is_dnscrypt_certificate_request (c ∷ s) p =
    if not ((header p).qdcount == 1)
    then ok false
    else any_cert_question (header p).qdcount header_size (with_last_dot (c ∷ s)) p

-- The 4 bytes that `add_answer` reads from an address as one of the first family; an address of the second
-- family has zeros there, where its flow label is.
unfoldable pub address_data : Address → Bytes
address_data a = elim a.inet [ ipv4 ↦ a.addr | ipv6 ↦ 0 ∷ 0 ∷ 0 ∷ 0 ∷ [] ]

-- `add_answer (address, ttl)`
abbrev pub add_address : Address → ℕ → Packet → Result Packet
add_address ip ttl p = add_answer (address_data ip) type_a ttl p

-- `set_answer`
unfoldable pub set_answer : (Inet → Bytes → Option Bytes) → Bytes → Packet → Result Packet
set_answer inet_pton ip p = do addr ← new_address inet_pton ip 0; add_address addr 10 p

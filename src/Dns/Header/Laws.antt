-- ===== src/Dns/Header/Laws.antt =====
-- What a header that is written reads as, and what marking a message changes.
use cdns.Dns.Header.{
  MessageHeader, IsHeader, has_bit, header, flag_byte, code_byte, set_header, flag_qr, set_rcode,
  flag, mark_refused, mark_servfail,
}
use cdns.Network.Packet.{Packet, IsPacket}
use cdns.Prelude.{Memory, ℕ, ◌+◌, ◌*◌, ◌/◌, ◌%◌, ◌≤◌, ◌<◌, ◌≡◌, refl, ◌∙◌, true, arith}

abbrev pub IsMemory : Memory → Type 0
IsMemory m = (i : ℕ) → m i < 256

pub header-IsHeader : (p : Packet) → IsMemory p.bytes → IsHeader (header p)
unfolding header
header-IsHeader p v = ground (arith, v 0, v 1, v 2, v 3, v 4, v 5, v 6, v 7, v 8, v 9, v 10, v 11)

flag_bits :
    (h : MessageHeader)
    → h.opcode < 16
    → let v = flag_byte h in
      (has_bit v 1 ≡ h.rd)
      × (has_bit v 2 ≡ h.tc)
      × (has_bit v 4 ≡ h.aa)
      × (v / 8 % 16 ≡ h.opcode)
      × (has_bit v 128 ≡ h.qr)
flag_bits h r = ground arith

code_bits :
    (h : MessageHeader)
    → h.rcode < 16
    → h.z < 8
    → let v = code_byte h in (v % 16 ≡ h.rcode) × (v / 16 % 8 ≡ h.z) × (has_bit v 128 ≡ h.ra)
code_bits h r s = ground arith

halves : (n : ℕ) → n < 65536 → n / 256 % 256 * 256 + n % 256 ≡ n
halves n h = omega arith

pub header-set_header_at :
    (h : MessageHeader) (p : Packet)
    → IsHeader h
    → (header (set_header h p) ≡ h)
      × ((i : ℕ) → 12 ≤ i → (set_header h p).bytes i ≡ p.bytes i)
      × ((set_header h p).size ≡ p.size)
unfolding header set_header
header-set_header_at h p v = (
  ground (
    arith,
    flag_bits h,
    code_bits h,
    halves h.id,
    halves h.qdcount,
    halves h.ancount,
    halves h.nscount,
    halves h.arcount,
  ),
  λ i le. ground arith,
  refl,
)

header-mark :
    (r : ℕ) (p : Packet)
    → IsMemory p.bytes
    → (header (flag flag_qr true (set_rcode r p)) ≡ record (header p) { rcode = r % 16; qr = true })
      × ((i : ℕ) → 12 ≤ i → (flag flag_qr true (set_rcode r p)).bytes i ≡ p.bytes i)
unfolding set_rcode flag
header-mark r p v =
    let h1 = record (header p) { rcode = r % 16 } in
    let v1 : IsHeader h1 = h1-IsHeader in
    let one = header-set_header_at h1 p v1 in
    let v2 : IsHeader (record h1 { qr = true }) = h2-IsHeader in
    let two = header-set_header_at (record h1 { qr = true }) (set_header h1 p) v2 in
    (rw one.0 two.0, λ i le. rw one.0 (two.1 i le ∙ one.1 i le))
  where
    base : IsHeader (header p)
    base = header-IsHeader p v

    h1-IsHeader : IsHeader (record (header p) { rcode = r % 16 })
    h1-IsHeader = omega (arith, base)

    h2-IsHeader : IsHeader (record (header p) { rcode = r % 16; qr = true })
    h2-IsHeader = omega (arith, base)

-- A header whose fields are in the ranges of their types reads back as it was written; the bytes
-- behind it and the size of the message are as before.
header-set_header :
    (h : MessageHeader) (p : Packet)
    → IsHeader h
    → (header (set_header h p) ≡ h)
      × ((i : ℕ) → (set_header h p).bytes (12 + i) ≡ p.bytes (12 + i))
      × ((set_header h p).size ≡ p.size)
header-set_header h p v =
    let s = header-set_header_at h p v in (s.0, λ i. s.1 (12 + i) (omega arith), s.2)

-- In a message of bytes, marking as refused, or as failed, sets the response flag and the code; all
-- other fields of the header, and the bytes behind it, are as before.
header-mark_refused :
    (p : Packet)
    → IsMemory p.bytes
    → (header (mark_refused p) ≡ record (header p) { rcode = 5; qr = true })
      × (header (mark_servfail p) ≡ record (header p) { rcode = 2; qr = true })
      × ((i : ℕ) → (mark_refused p).bytes (12 + i) ≡ p.bytes (12 + i))
      × ((i : ℕ) → (mark_servfail p).bytes (12 + i) ≡ p.bytes (12 + i))
unfolding mark_refused mark_servfail
header-mark_refused p v =
    let r = header-mark 5 p v in
    let s = header-mark 2 p v in
    (r.0, s.0, λ i. r.1 (12 + i) (omega arith), λ i. s.1 (12 + i) (omega arith))

-- The header depends on the first 12 bytes alone.
pub header-local : (p q : Packet) → ((i : ℕ) → i < 12 → p.bytes i ≡ q.bytes i) → header p ≡ header q
unfolding header
header-local p q a = ground (arith, a 0, a 1, a 2, a 3, a 4, a 5, a 6, a 7, a 8, a 9, a 10, a 11)

pub set_header-IsPacket : (h : MessageHeader) (p : Packet) → IsPacket p → IsPacket (set_header h p)
unfolding set_header
set_header-IsPacket h p v = ground arith

pub set_header-size : (h : MessageHeader) (p : Packet) → (set_header h p).size ≡ p.size
unfolding set_header
set_header-size h p = refl

pub set_header-reserved : (h : MessageHeader) (p : Packet) → (set_header h p).reserved ≡ p.reserved
unfolding set_header
set_header-reserved h p = refl

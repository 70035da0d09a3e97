-- ===== src/Dns/Header.antt =====
-- dns/message_header.hxx, and of dns/srcz/query.cpp the operations on the 12 bytes of the header:
-- `header`, `set_header`, `set`, `rcode`, `opcode`, `flag`, `mark_*`, `has_flags_tc`. The bit fields
-- stand from the low bit up, as the supported compilers place them.
pub mod Laws
use cdns.Dns.Constants.{servfail, refused, rcode_value}
use cdns.Network.Packet.{Packet}
use cdns.Prelude.{
  ◌==◌, if◌then◌else◌, Memory, write, read16, write16, ℕ, ◌+◌, ◌*◌, ◌/◌, ◌%◌, ◌<◌, Bool, true,
}

pub record MessageHeader : Type 0 where
  pub id : ℕ
  pub rd : Bool
  pub tc : Bool
  pub aa : Bool
  pub opcode : ℕ
  pub qr : Bool
  pub rcode : ℕ
  pub z : ℕ
  pub ra : Bool
  pub qdcount : ℕ
  pub ancount : ℕ
  pub nscount : ℕ
  pub arcount : ℕ

-- The ranges of the fields' types.
pub record IsHeader (h : MessageHeader) : Type 0 where
  pub id_range : h.id < 65536
  pub opcode_range : h.opcode < 16
  pub rcode_range : h.rcode < 16
  pub z_range : h.z < 8
  pub qd_range : h.qdcount < 65536
  pub an_range : h.ancount < 65536
  pub ns_range : h.nscount < 65536
  pub ar_range : h.arcount < 65536

abbrev pub bit : Bool → ℕ
bit b = if b then 1 else 0

abbrev pub has_bit : ℕ → ℕ → Bool
has_bit v k = v / k % 2 == 1

-- `query::header`
unfoldable pub header : Packet → MessageHeader
header p = record {
  id = read16 p.bytes 0;
  rd = has_bit (p.bytes 2) 1;
  tc = has_bit (p.bytes 2) 2;
  aa = has_bit (p.bytes 2) 4;
  opcode = p.bytes 2 / 8 % 16;
  qr = has_bit (p.bytes 2) 128;
  rcode = p.bytes 3 % 16;
  z = p.bytes 3 / 16 % 8;
  ra = has_bit (p.bytes 3) 128;
  qdcount = read16 p.bytes 4;
  ancount = read16 p.bytes 6;
  nscount = read16 p.bytes 8;
  arcount = read16 p.bytes 10;
}

abbrev pub flag_byte : MessageHeader → ℕ
flag_byte h = bit h.rd + 2 * bit h.tc + 4 * bit h.aa + 8 * h.opcode + 128 * bit h.qr

abbrev pub code_byte : MessageHeader → ℕ
code_byte h = h.rcode + 16 * h.z + 128 * bit h.ra

unfoldable pub header_bytes : MessageHeader → Memory → Memory
header_bytes h m =
    write16
      (write16
        (write16
          (write16 (write (write (write16 m 0 h.id) 2 (flag_byte h)) 3 (code_byte h)) 4 h.qdcount) 6
          h.ancount)
        8 h.nscount)
      10 h.arcount

-- `query::set_header`
unfoldable pub set_header : MessageHeader → Packet → Packet
unfolding header_bytes
set_header h p = record p { bytes = header_bytes h p.bytes }

-- `enum class pkt_flag`
pub data PktFlag : Type 0 where
  flag_qr flag_aa flag_tc flag_ra flag_rd : PktFlag

unfoldable pub set_rcode : ℕ → Packet → Packet
set_rcode r p = set_header (record (header p) { rcode = r % 16 }) p

abbrev pub rcode : Packet → ℕ
rcode p = (header p).rcode

abbrev pub opcode : Packet → ℕ
opcode p = (header p).opcode

abbrev pub with_flag : PktFlag → Bool → MessageHeader → MessageHeader
with_flag flag_qr v h = record h { qr = v }
with_flag flag_aa v h = record h { aa = v }
with_flag flag_tc v h = record h { tc = v }
with_flag flag_ra v h = record h { ra = v }
with_flag flag_rd v h = record h { rd = v }

unfoldable pub flag : PktFlag → Bool → Packet → Packet
flag f v p = set_header (with_flag f v (header p)) p

unfoldable pub set_opcode : ℕ → Packet → Packet
set_opcode op p = set_header (record (header p) { opcode = op % 16 }) p

unfoldable pub mark_refused : Packet → Packet
mark_refused p = flag flag_qr true (set_rcode (rcode_value refused) p)

unfoldable pub mark_servfail : Packet → Packet
mark_servfail p = flag flag_qr true (set_rcode (rcode_value servfail) p)

unfoldable pub mark_truncated : Packet → Packet
mark_truncated p = flag flag_qr true (flag flag_tc true p)

unfoldable pub has_flags_tc : Packet → Bool
has_flags_tc p = (header p).tc

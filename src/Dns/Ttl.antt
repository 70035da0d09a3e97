-- ===== src/Dns/Ttl.antt =====
-- dns/srcz/query.cpp: `answer_min_ttl` and `adjust_id_and_ttl`. A time to live is a 32-bit pattern,
-- compared as the signed number that it stands for. The assertions of the source, which a release
-- build drops, are not checked.
pub mod Adjust
pub mod Lowest
use cdns.Dns.Constants.{
  header_size, rr_header_size, noerror, nxdomain, rcode_value, class_internet, type_opt,
}
use cdns.Dns.Header.{MessageHeader, header, set_header, rcode}
use cdns.Dns.Record.{RrHeader, Rr, get_rr, skip_questions}
use cdns.Network.Packet.{Packet}
use cdns.Prelude.{
  ltb, ◌==◌, if◌then◌else◌, write32, length, Result, ok, ◌>>=◌, ℕ, zero, suc, ◌+◌, ◌-◌, ◌%◌, Bool,
  not, ◌&&◌,
}

-- `a < b` for `std::int32_t`.
abbrev pub slt32 : ℕ → ℕ → Bool
slt32 a b = ltb ((a + 2147483648) % 4294967296) ((b + 2147483648) % 4294967296)

-- `std::numeric_limits <std::int32_t>::max()`
abbrev pub int32_max : ℕ
int32_max = 2147483647

abbrev pub no_header : RrHeader
no_header = record { type = 0; class = 0; ttl = 0; rdlength = 0 }

-- `head.ancount + head.arcount + head.nscount`
abbrev pub record_count : MessageHeader → ℕ
record_count h = h.ancount + h.arcount + h.nscount

abbrev pub lower : Rr → ℕ → ℕ
lower r min_ttl =
    if not (r.rr.type == type_opt) && slt32 r.rr.ttl min_ttl then r.rr.ttl else min_ttl

-- The loop over the records.
unfoldable pub min_ttl_loop : ℕ → ℕ → ℕ → Packet → Result ℕ
min_ttl_loop zero off min_ttl p = ok min_ttl
min_ttl_loop (suc n) off min_ttl p = do r ← get_rr off p; min_ttl_loop n r.next (lower r min_ttl) p

-- The part behind the early returns.
unfoldable pub answers_min_ttl : MessageHeader → Packet → Result ℕ
answers_min_ttl head p = do
  q ← skip_questions head.qdcount header_size no_header p
  let lowest = min_ttl_loop (record_count head) q.0 int32_max p
  if ltb 0 head.qdcount && not (q.1.class == class_internet) then ok 0 else lowest

unfoldable pub answer_min_ttl : Packet → Result ℕ
answer_min_ttl p =
    let head = header p in
    if head.tc
    then ok 0
    else if not (rcode p == rcode_value noerror) && not (rcode p == rcode_value nxdomain)
    then ok 0
    else if not head.qr
    then ok 0
    else if record_count head == 0
    then ok 0
    else answers_min_ttl head p

-- A new time to live in the bytes of a record that `get_rr` has just read.
unfoldable pub set_ttl : ℕ → Rr → Packet → Packet
set_ttl ttl r p =
    if r.rr.type == type_opt
    then p
    else record p { bytes = write32 p.bytes (r.next - length r.rdata - rr_header_size + 4) ttl }

unfoldable pub adjust_loop : ℕ → ℕ → ℕ → Packet → Result Packet
adjust_loop zero off ttl p = ok p
adjust_loop (suc n) off ttl p = do r ← get_rr off p; adjust_loop n r.next ttl (set_ttl ttl r p)

unfoldable pub adjust_id_and_ttl : ℕ → ℕ → Packet → Result Packet
adjust_id_and_ttl tid ttl p = do
  let head = record (header p) { id = tid }
  let p1 = set_header head p
  q ← skip_questions head.qdcount header_size no_header p1
  adjust_loop (record_count head) q.0 ttl p1

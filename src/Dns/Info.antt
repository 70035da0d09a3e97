-- ===== src/Dns/Info.antt =====
-- dns/srcz/query.cpp: `query::short_info`, which `pass_answer_downstream` calls for the log: what it throws.
-- The text that it makes is left out.
use cdns.Dns.Constants.{header_size}
use cdns.Dns.Header.{header, rcode}
use cdns.Dns.Record.{Rr, get_rr_question, get_rr}
use cdns.Network.Packet.{Packet}
use cdns.Prelude.{
  leb, ◌==◌, if◌then◌else◌, length, unknown_class, unknown_rcode, wrong_address_size, Result, ok,
  guard, ◌>>=◌, ◌>>◌, ℕ, zero, suc, Bool, ◌&&◌, ◌||◌,
}

-- The values of `rr_class`.
unfoldable pub is_rr_class : ℕ → Bool
is_rr_class c = c == 1 || c == 3 || c == 4 || c == 254 || c == 255

-- `rr_class_cstr`
unfoldable pub check_class : ℕ → Result (Unit {0})
check_class c = guard (is_rr_class c) unknown_class

-- `pkt_rcode_cstr`, which the code 0 is not given.
unfoldable pub check_rcode : ℕ → Result (Unit {0})
check_rcode code = guard (leb code 10) unknown_rcode

-- The loop over the questions: the offset behind them.
unfoldable pub info_questions : ℕ → ℕ → Packet → Result ℕ
info_questions zero off p = ok off
info_questions (suc n) off p = do
  r ← get_rr_question off p
  check_class r.rr.class
  info_questions n r.next p

-- One answer: the constructor of an address takes from 4 to 128 bytes, of either family.
unfoldable pub check_answer : Rr → Result (Unit {0})
check_answer r =
    let is_address = r.rr.type == 1 || r.rr.type == 28 in
    let size = length r.rdata in
    if r.rr.class == 1
    then (if is_address then guard (leb 4 size && leb size 128) wrong_address_size else ok tt)
    else check_class r.rr.class

-- The loop over the answers.
unfoldable pub info_answers : ℕ → ℕ → Packet → Result (Unit {0})
info_answers zero off p = ok tt
info_answers (suc n) off p = do r ← get_rr off p; check_answer r; info_answers n r.next p

unfoldable pub short_info : Packet → Result (Unit {0})
short_info p = do
  check_rcode (rcode p)
  off ← info_questions (header p).qdcount header_size p
  info_answers (header p).ancount off p

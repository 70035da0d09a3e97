-- ===== src/Dns/Record.antt =====
-- dns/srcz/query.cpp: `get_rr_question`, `get_rr`, `get_question`, `hostname`, and the loops that
-- skip questions and read records. Numbers are read in network order.
pub mod Local
use cdns.Dns.Constants.{header_size, rr_question_header_size, rr_header_size}
use cdns.Dns.Header.{header}
use cdns.Dns.Name.{get_rr_name}
use cdns.Network.Packet.{Packet}
use cdns.Prelude.{
  ltb, ◌==◌, if◌then◌else◌, Bytes, Memory, slice, read16, read32, no_record, record_too_long,
  not_single_question, Result, ok, err, ◌>>=◌, ◌>>◌, guard, ℕ, zero, suc, ◌+◌, ◌%◌, List, [], ◌∷◌,
}

-- `struct rr_header`; the time to live is the 32-bit pattern of the signed number.
pub record RrHeader : Type 0 where
  pub type : ℕ
  pub class : ℕ
  pub ttl : ℕ
  pub rdlength : ℕ

-- What `get_rr` and `get_rr_question` return and fill in.
pub record Rr : Type 0 where
  pub next : ℕ
  pub rr : RrHeader
  pub owner : Bytes
  pub rdata : Bytes

-- The part of `get_rr_question` behind the name.
unfoldable pub question_at : Packet → ℕ × Bytes → Result Rr
question_at p name =
    if ltb p.size (name.0 + rr_question_header_size)
    then err no_record
    else ok (record {
      next = (name.0 + rr_question_header_size) % 65536;
      rr = record {
        type = read16 p.bytes name.0;
        class = read16 p.bytes (name.0 + 2);
        ttl = 0;
        rdlength = 0;
      };
      owner = name.1;
      rdata = [];
    })

unfoldable pub get_rr_question : ℕ → Packet → Result Rr
get_rr_question off p = do name ← get_rr_name off p; question_at p name

abbrev pub rr_at : Memory → ℕ → RrHeader
rr_at m i = record {
  type = read16 m i;
  class = read16 m (i + 2);
  ttl = read32 m (i + 4);
  rdlength = read16 m (i + 8);
}

-- The part of `get_rr` behind the name.
unfoldable pub record_at : Packet → ℕ × Bytes → Result Rr
record_at p name =
    let o = name.0 + rr_header_size in
    let h = rr_at p.bytes name.0 in
    if ltb p.size o
    then err no_record
    else if ltb p.size (o + h.rdlength)
    then err record_too_long
    else ok (record {
      next = (o + h.rdlength) % 65536;
      rr = h;
      owner = name.1;
      rdata = slice p.bytes o h.rdlength;
    })

unfoldable pub get_rr : ℕ → Packet → Result Rr
get_rr off p = do name ← get_rr_name off p; record_at p name

-- `std::tuple <std::string, rr_class, rr_type>`
pub record Question : Type 0 where
  pub owner : Bytes
  pub class : ℕ
  pub type : ℕ

unfoldable pub get_question : Packet → Result Question
get_question p = do
  guard ((header p).qdcount == 1) not_single_question
  q ← get_rr_question header_size p
  ok (record { owner = q.owner; class = q.rr.class; type = q.rr.type })

-- Without the dot at the end, if there is one.
unfoldable pub drop_last_dot : Bytes → Bytes
drop_last_dot [] = []
drop_last_dot (c ∷ []) = if c == b'.' then [] else c ∷ []
drop_last_dot (c ∷ d ∷ s) = c ∷ drop_last_dot (d ∷ s)

unfoldable pub hostname : Packet → Result Bytes
hostname p = do q ← get_question p; ok (drop_last_dot q.owner)

-- The loop over the questions: the offset behind them, and the last one if there is any.
unfoldable pub skip_questions : ℕ → ℕ → RrHeader → Packet → Result (ℕ × RrHeader)
skip_questions zero off last p = ok (off, last)
skip_questions (suc n) off last p = do q ← get_rr_question off p; skip_questions n q.next q.rr p

-- The loop over `n` records.
unfoldable pub get_rrs : ℕ → ℕ → Packet → Result (List Rr)
get_rrs zero off p = ok []
get_rrs (suc n) off p = do r ← get_rr off p; rs ← get_rrs n r.next p; ok (r ∷ rs)

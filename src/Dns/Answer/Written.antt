-- ===== src/Dns/Answer/Written.antt =====
-- The bytes that `put_answer` writes, and how they read.
use cdns.Dns.Answer.{put_answer}
use cdns.Dns.Constants.{header_size, class_internet}
use cdns.Dns.Name.{label_case, get_labels, get_rr_name}
use cdns.Dns.Record.{Rr, rr_at, get_rr}
use cdns.Dns.Record.Local.{RecordAt, RecordAt-record_at}
use cdns.Network.Packet.{Packet, IsPacket}
use cdns.Prelude.{
  Bytes, Memory, write, write_list, slice, read16, write16, read32, write32, write_list_below,
  slice-write_list, length, ok, ℕ, ◌+◌, ◌≤◌, ◌<◌, ◌≡◌, sym, ap, ◌∙◌, [], arith,
}

-- The record that is written.
abbrev pub new_rr : Bytes → ℕ → ℕ → ℕ → Rr
new_rr rdata typ ttl size = record {
  next = size + (12 + length rdata);
  rr = record { type = typ; class = 1; ttl = ttl; rdlength = length rdata };
  owner = [];
  rdata = rdata;
}

pub put_answer-below :
    (rdata : Bytes) (typ ttl off : ℕ) (p : Packet) (i : ℕ)
    → i < off
    → (put_answer rdata typ ttl off p).bytes i ≡ p.bytes i
unfolding put_answer
put_answer-below rdata typ ttl off p i lt =
    write_list_below _ (off + 12) rdata i (omega arith) ∙ ground arith

-- The bytes before the data.
abbrev answer_head : Bytes → ℕ → ℕ → ℕ → Memory → Memory
answer_head rdata typ ttl off m =
    let name = write (write m off 0xc0) (off + 1) header_size in
    let type_class = write16 (write16 name (off + 2) typ) (off + 4) class_internet in
    write16 (write32 type_class (off + 6) ttl) (off + 10) (length rdata)

module _ (rdata : Bytes) (typ ttl off : ℕ) (m : Memory) where
  head-name : answer_head rdata typ ttl off m off ≡ 0xc0
  head-name = ground arith

  head-type : typ < 65536 → read16 (answer_head rdata typ ttl off m) (off + 2) ≡ typ
  head-type h = ground arith

  head-class : read16 (answer_head rdata typ ttl off m) (off + 2 + 2) ≡ 1
  head-class = ground arith

  head-ttl : ttl < 4294967296 → read32 (answer_head rdata typ ttl off m) (off + 2 + 4) ≡ ttl
  head-ttl h = ground arith

  head-rdlength :
      length rdata < 65536 → read16 (answer_head rdata typ ttl off m) (off + 2 + 8) ≡ length rdata
  head-rdlength h = ground arith

rr_at-local :
    (m m' : Memory) (n : ℕ) → ((i : ℕ) → n ≤ i → i < n + 10 → m i ≡ m' i) → rr_at m n ≡ rr_at m' n
rr_at-local m m' n a = ground (
  arith,
  a n,
  a (n + 1),
  a (n + 2),
  a (n + 2 + 1),
  a (n + 4),
  a (n + 4 + 1),
  a (n + 4 + 2),
  a (n + 4 + 2 + 1),
  a (n + 8),
  a (n + 8 + 1),
)

put_answer-head :
    (rdata : Bytes) (typ ttl off : ℕ) (p : Packet)
    → typ < 65536
    → ttl < 4294967296
    → length rdata < 65536
    → let q = put_answer rdata typ ttl off p in
      (q.bytes off ≡ 0xc0)
      × (rr_at q.bytes (off + 2)
          ≡ record { type = typ; class = 1; ttl = ttl; rdlength = length rdata })
unfolding put_answer
put_answer-head rdata typ ttl off p typ_ok range small =
    let h = answer_head rdata typ ttl off p.bytes in
    (
      write_list_below h (off + 12) rdata off (omega arith) ∙ head-name rdata typ ttl off p.bytes,
      rr_at-local (write_list h (off + 12) rdata) h (off + 2)
            (λ i le lt. write_list_below h (off + 12) rdata i (omega arith))
          ∙ cc (
            head-type rdata typ ttl off p.bytes typ_ok,
            head-class rdata typ ttl off p.bytes,
            head-ttl rdata typ ttl off p.bytes range,
            head-rdlength rdata typ ttl off p.bytes small,
          ),
    )

-- A name that is a pointer is read as no labels.
pointer-get_rr_name :
    (off : ℕ) (p : Packet)
    → 12 ≤ off
    → off + 2 ≤ p.size
    → IsPacket p
    → p.bytes off ≡ 0xc0
    → get_rr_name off p ≡ ok (off + 2, [])
unfolding get_rr_name get_labels label_case
pointer-get_rr_name off p low fits v e = rw e (ground arith)

pub put_answer-size :
    (rdata : Bytes) (typ ttl off : ℕ) (p : Packet)
    → off + (12 + length rdata) ≤ p.reserved
    → IsPacket p
    → IsPacket (put_answer rdata typ ttl off p)
      × ((put_answer rdata typ ttl off p).size ≡ off + (12 + length rdata))
unfolding put_answer
put_answer-size rdata typ ttl off p room v = omega arith

put_answer-data :
    (rdata : Bytes) (typ ttl off : ℕ) (p : Packet)
    → rdata ≡ slice (put_answer rdata typ ttl off p).bytes (off + 2 + 10) (length rdata)
unfolding put_answer
put_answer-data rdata typ ttl off p =
    let e : off + 12 ≡ off + 2 + 10 = omega arith in
    let h = answer_head rdata typ ttl off p.bytes in
    sym (slice-write_list h (off + 12) rdata)
    ∙ ap (λ k. slice (write_list h (off + 12) rdata) k (length rdata)) e

pub put_answer-get_rr :
    (rdata : Bytes) (typ ttl off : ℕ) (p : Packet)
    → typ < 65536
    → ttl < 4294967296
    → 12 ≤ off
    → off + (12 + length rdata) ≤ p.reserved
    → IsPacket p
    → IsPacket (put_answer rdata typ ttl off p)
      × ((put_answer rdata typ ttl off p).size ≡ off + (12 + length rdata))
      × (get_rr off (put_answer rdata typ ttl off p) ≡ ok (new_rr rdata typ ttl off))
unfolding get_rr
put_answer-get_rr rdata typ ttl off p typ_ok range low room v =
    let q = put_answer rdata typ ttl off p in
    let sizes = put_answer-size rdata typ ttl off p room v in
    let head = put_answer-head rdata typ ttl off p typ_ok range (omega arith) in
    let name = pointer-get_rr_name off q low (omega (arith, sizes.1)) sizes.0 head.0 in
    let at : RecordAt q (off + 2) (new_rr rdata typ ttl off) = record {
      end_at = omega arith;
      inside = omega (arith, sizes.1);
      fields = sym head.1;
      data_at = put_answer-data rdata typ ttl off p;
    } in
    (
      sizes.0,
      sizes.1,
      rw name (RecordAt-record_at q (off + 2) (new_rr rdata typ ttl off) sizes.0 at),
    )

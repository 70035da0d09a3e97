-- ===== src/Dns/Question.antt =====
-- dns/srcz/query.cpp: the constructor `query (hostname, type, id)`, which writes a question.
pub mod Fill
pub mod Parse
pub mod RoundTrip
use cdns.Dns.Constants.{
  max_host_name_length, max_size, header_size, rr_question_header_size, class_internet,
}
use cdns.Dns.Header.{MessageHeader, set_header}
use cdns.Dns.Name.{is_dns_char}
use cdns.Dns.Record.{hostname}
use cdns.Network.Packet.{Packet, reserve}
use cdns.Prelude.{
  ltb, leb, ◌==◌, if◌then◌else◌, Bytes, Memory, write, write16, length, message_too_large,
  host_too_long, label_too_large, not_dns_char, Result, ok, err, ◌>>=◌, ℕ, ◌+◌, ◌-◌, ◌%◌, false,
  not, [], ◌∷◌,
}

-- The default-constructed packet, before `reserve`.
abbrev pub no_packet : Packet
no_packet = record { size = 0; reserved = 0; bytes = λ i. 0 }

abbrev pub question_head : ℕ → MessageHeader
question_head id = record {
  id = id;
  rd = false;
  tc = false;
  aa = false;
  opcode = 0;
  qr = false;
  rcode = 0;
  z = 0;
  ra = false;
  qdcount = 1;
  ancount = 0;
  nscount = 0;
  arcount = 0;
}

-- The loop over the characters from the `i`-th on: `label_off` is the place of the open label, whose
-- length byte is written at its dot.
unfoldable pub fill : ℕ → ℕ → Bytes → Memory → Result (ℕ × Memory)
fill i label_off [] b = ok (label_off, b)
fill i label_off (ch ∷ rest) b =
    let closed = fill (i + 1) (i + 1) rest (write b (header_size + label_off) (i - label_off)) in
    let open_label = fill (i + 1) label_off rest (write b (header_size + i + 1) ch) in
    if ch == b'.'
    then (if leb 64 (i - label_off) then err label_too_large else closed)
    else if is_dns_char ch
    then open_label
    else err not_dns_char

-- The last label, and the zero behind it; `n` is the length of the host name.
unfoldable pub close_name : ℕ → ℕ × Memory → Result (ℕ × Memory)
close_name n (label_off, b) =
    if not (label_off == n)
    then (if leb 64 (n - label_off)
        then err label_too_large
        else ok (
          1 + n,
          write (write b (header_size + label_off) (n - label_off)) (header_size + (1 + n)) 0,
        ))
    else ok (label_off, write b (header_size + label_off) 0)

-- The type and the class behind the name, and the size.
unfoldable pub finish_query : ℕ → ℕ × Memory → Result Packet
finish_query typ (label_off, b) =
    let new_size = header_size + 1 + label_off + rr_question_header_size in
    let at = header_size + label_off + 1 in
    if ltb max_size new_size
    then err message_too_large
    else ok (record {
      size = new_size % 65536;
      reserved = max_size;
      bytes = write16 (write16 b at typ) (at + 2) class_internet;
    })

unfoldable pub new_query : Bytes → ℕ → ℕ → Result Packet
new_query hostname typ id =
    let p = set_header (question_head id) (reserve max_size no_packet) in
    if ltb max_host_name_length (length hostname) then err host_too_long else do
      filled ← fill 0 0 hostname (write p.bytes header_size 0)
      named ← close_name (length hostname) filled
      finish_query typ named

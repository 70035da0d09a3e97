-- ===== src/Dns/Answer/Txt.antt =====
-- A text record that is added to a question reads back.
use cdns.Dns.Answer.{
  skip_rrs, set_txt_answer, txt_data, find_txt_answers, drop_first, get_txt_answer,
}
use cdns.Dns.Answer.Added.{add_answer_lem}
use cdns.Dns.Answer.Written.{new_rr}
use cdns.Dns.Constants.{max_size, type_txt}
use cdns.Dns.Header.{MessageHeader, header}
use cdns.Dns.Header.Laws.{IsMemory}
use cdns.Dns.Record.{RrHeader, get_rrs}
use cdns.Dns.Ttl.{record_count}
use cdns.Dns.Ttl.Adjust.{Reads}
use cdns.Network.Packet.{Packet, IsPacket}
use cdns.Prelude.{
  le→ltb, Bytes, length, ok, ℕ, zero, ◌+◌, ◌≤◌, ◌<◌, ◌≡◌, refl, ap, ◌∙◌, [], ◌∷◌, map, arith,
}

-- The one record that is read as a text answer.
txt_data-new_rr :
    (text : Bytes) (ttl size : ℕ)
    → map drop_first (txt_data (new_rr (length text ∷ text) type_txt ttl size ∷ [])) ≡ text ∷ []
unfolding txt_data drop_first
txt_data-new_rr text ttl size = refl

-- To a question that ends its message, with no records behind it, `set_txt_answer` adds a text of
-- at most 255 bytes that the message has room for: it succeeds, and the text answers of the new
-- message are exactly this text.
pub get_txt_answer-set_txt_answer :
    (text : Bytes) (ttl : ℕ) (p : Packet) (last : RrHeader)
    → IsPacket p
    → IsMemory p.bytes
    → ttl < 4294967296
    → length text ≤ 255
    → p.size + (13 + length text) ≤ max_size
    → (header p).qdcount ≡ 1
    → record_count (header p) ≡ 0
    → Reads p p.size last []
    → (p' : Packet) × (set_txt_answer text ttl p ≡ ok p') × (get_txt_answer p' ≡ ok (text ∷ []))
unfolding set_txt_answer get_txt_answer find_txt_answers
get_txt_answer-set_txt_answer text ttl p last v m range short room qd none_yet reads =
    let an : (header p).ancount ≡ 0 = omega (arith, none_yet) in
    let end : skip_rrs (header p).ancount p.size p ≡ ok p.size = rw an (skip_rrs-zero p.size p) in
    let (p', run, h', reads', v', s') =
      add_answer_lem (length text ∷ text) type_txt ttl p p.size last [] v m (omega arith) range
        (omega arith) qd (omega (arith, none_yet)) (omega (arith, none_yet)) reads end in
    let count : (header p').ancount ≡ record_count (header p') = omega (
      arith,
      none_yet,
      ap (λ (h : MessageHeader). h.ancount) h',
      ap (λ (h : MessageHeader). h.arcount) h',
      ap (λ (h : MessageHeader). h.nscount) h',
    ) in
    let rrs = ap (λ k. get_rrs k p.size p') count ∙ reads'.records in
    (
      p',
      rw (le→ltb 255 (length text) short) run,
      rw (reads'.questions, rrs) (ap ok (txt_data-new_rr text ttl p.size)),
    )
  where
    skip_rrs-zero : (n : ℕ) (q : Packet) → skip_rrs zero n q ≡ ok n
    skip_rrs-zero n q = unfold skip_rrs in refl

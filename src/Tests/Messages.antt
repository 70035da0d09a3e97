-- ===== src/Tests/Messages.antt =====
-- Messages that are built and read: queries, names, answers, headers.
use cdns.Dns.Header.{header}
use cdns.Dns.Header.Laws.{IsMemory}
use cdns.Dns.Name.{is_dns_char, push_label, label_case, get_labels, get_rr_name}
use cdns.Dns.Name.Bounds.{get_rr_name_bounds, get_rr_name_safe}
use cdns.Dns.Question.{question_head, new_query}
use cdns.Dns.Question.Fill.{dotted, joined}
use cdns.Dns.Question.RoundTrip.{IsHostname, get_question-new_query}
use cdns.Dns.Record.{
  RrHeader, Rr, question_at, get_rr_question, record_at, get_rr, get_question, skip_questions,
  get_rrs,
}
use cdns.Dns.Ttl.{int32_max, record_count, answer_min_ttl, adjust_id_and_ttl}
use cdns.Dns.Ttl.Adjust.{retime, Reads, adjust_id_and_ttl_lem}
use cdns.Dns.Ttl.Lowest.{Lives, Occurs, answer_min_ttl-lowest}
use cdns.Network.Packet.{Packet, IsPacket}
use cdns.Prelude.{
  ltb, if◌then◌else◌, Bytes, codes, slice, of_list, length, All, out_of_fuel, err, ok, ℕ, zero, suc,
  ◌+◌, ◌≤◌, ◌<◌, ◌≡◌, refl, ◌≢◌, inl, inr, true, false, List, [], ◌∷◌, map, arith,
}
use cdns.Sys.Ascii.{is_alnum}

abbrev pub small_name : List Bytes
small_name = codes "ab" ∷ codes "c-1" ∷ []

small_name-IsHostname : IsHostname (codes "ab.c-1") small_name
unfolding dotted joined is_dns_char is_alnum
small_name-IsHostname =
    (ground arith, omega arith, omega arith, inr (codes "ab", codes "c-1" ∷ [], refl, refl))

get_question-new_query_example :
    (p : Packet) × (new_query (codes "ab.c-1") 28 7 ≡ ok p)
    × (get_question p ≡ ok (record { owner = dotted small_name; class = 1; type = 28 }))
    × (header p ≡ question_head 7)
    × (p.size ≡ 12 + length (dotted small_name) + 5)
    × IsPacket p
get_question-new_query_example =
    get_question-new_query (codes "ab.c-1") small_name 28 7 small_name-IsHostname (omega arith)
      (omega arith)

-- A response to "a" of type A: one question, one answer, whose name is a pointer, with the time to
-- live 300.
abbrev pub answer_bytes : Bytes
answer_bytes =
    0 ∷ 9 ∷ 0x84 ∷ 0 ∷ 0 ∷ 1 ∷ 0 ∷ 1 ∷ 0 ∷ 0 ∷ 0 ∷ 0 ∷ 1 ∷ b'a' ∷ 0 ∷ 0 ∷ 1 ∷ 0 ∷ 1 ∷ 0xc0 ∷ 12 ∷ 0
    ∷ 1 ∷ 0 ∷ 1 ∷ 0 ∷ 0 ∷ 1 ∷ 44 ∷ 0 ∷ 4 ∷ 10 ∷ 0 ∷ 0 ∷ 1 ∷ []

abbrev pub answer : Packet
answer = record { size = 35; reserved = 35; bytes = of_list answer_bytes }

abbrev pub answer_rr : Rr
answer_rr = record {
  next = 35;
  rr = record { type = 1; class = 1; ttl = 300; rdlength = 4 };
  owner = [];
  rdata = 10 ∷ 0 ∷ 0 ∷ 1 ∷ [];
}

program : Unit {0}
unfolding get_rr record_at get_rr_name get_labels label_case push_label of_list is_dns_char is_alnum
    slice header get_rrs skip_questions get_rr_question question_at
program = tt

answer_read : get_rr 19 answer ≡ ok answer_rr
unfolding program
answer_read = refl

pub answer-IsPacket : IsPacket answer
answer-IsPacket = omega arith

pub of_list-IsMemory : (xs : Bytes) → All (λ x. x < 256) xs → IsMemory (of_list xs)
unfolding of_list
of_list-IsMemory [] h i = omega arith
of_list-IsMemory (x ∷ xs) h zero = h.0
of_list-IsMemory (x ∷ xs) h (suc i) = of_list-IsMemory xs h.1 i

pub answer-IsMemory : IsMemory (of_list answer_bytes)
answer-IsMemory = of_list-IsMemory answer_bytes (omega arith)

abbrev pub question_rr : RrHeader
question_rr = record { type = 1; class = 1; ttl = 0; rdlength = 0 }

pub answer-Reads : Reads answer 19 question_rr (answer_rr ∷ [])
unfolding program
answer-Reads = record { questions = refl; records = refl }

adjust_id_and_ttl_lem_example :
    (p' : Packet) × (adjust_id_and_ttl 77 5 answer ≡ ok p')
    × (header p' ≡ record (header answer) { id = 77 })
    × Reads p' 19 question_rr (map (retime 5) (answer_rr ∷ []))
    × IsPacket p'
    × (p'.size ≡ answer.size)
adjust_id_and_ttl_lem_example =
    adjust_id_and_ttl_lem 77 5 answer 19 question_rr (answer_rr ∷ []) answer-IsPacket
      answer-IsMemory (omega arith) (omega arith) answer-Reads

get_rr_name_bounds_example : (12 < 15) × (15 ≤ answer.size) × (length (codes "a.") ≤ 256)
unfolding program
get_rr_name_bounds_example =
    get_rr_name_bounds 12 answer {r = (15, codes "a.")} answer-IsPacket refl

-- The same message with other bytes behind it.
abbrev other_answer : Packet
other_answer = record answer { bytes = λ i. if ltb i 35 then answer.bytes i else 9 }

get_rr_name_safe_example :
    (get_rr_name 19 answer ≢ err out_of_fuel)
    × (get_rr_name 19 answer ≡ get_rr_name 19 other_answer)
get_rr_name_safe_example =
    get_rr_name_safe 19 answer other_answer refl
      (λ i lt. let inside : ltb i 35 ≡ true = ground (arith, lt) in rw inside refl)

answer_min_ttl-lowest_example :
    (m : ℕ) × (answer_min_ttl answer ≡ ok m)
    × All (Lives m) (answer_rr ∷ [])
    × Occurs m int32_max (answer_rr ∷ [])
answer_min_ttl-lowest_example =
    answer_min_ttl-lowest answer 19 question_rr (answer_rr ∷ []) answer-Reads tc qr (inl code) count
      refl
  where
    tc : (header answer).tc ≡ false
    tc = unfold program in refl

    qr : (header answer).qr ≡ true
    qr = unfold program in refl

    code : (header answer).rcode ≡ 0
    code = unfold program in refl

    count : record_count (header answer) ≢ 0
    count = unfold program in omega arith

-- ===== src/Tests/Answers.antt =====
-- Answers that are added to a question.
use cdns.Dns.Answer.{skip_rrs, add_answer, set_txt_answer, get_txt_answer}
use cdns.Dns.Answer.Added.{add_answer_lem}
use cdns.Dns.Answer.Txt.{get_txt_answer-set_txt_answer}
use cdns.Dns.Answer.Written.{new_rr}
use cdns.Dns.Header.{header}
use cdns.Dns.Header.Laws.{IsMemory}
use cdns.Dns.Name.{is_dns_char, push_label, label_case, get_labels, get_rr_name}
use cdns.Dns.Record.{RrHeader, question_at, get_rr_question, skip_questions, get_rrs}
use cdns.Dns.Ttl.{record_count}
use cdns.Dns.Ttl.Adjust.{Reads}
use cdns.Network.Packet.{Packet, IsPacket}
use cdns.Prelude.{Bytes, codes, of_list, ok, ◌+◌, ◌≡◌, refl, true, [], ◌∷◌, ◌++◌, arith}
use cdns.Sys.Ascii.{is_alnum}
use cdns.Tests.Messages.{of_list-IsMemory}

-- A query for "a" of type TXT.
abbrev question_bytes : Bytes
question_bytes = 0 ∷ 9 ∷ 1 ∷ 0 ∷ 0 ∷ 1 ∷ 0 ∷ 0 ∷ 0 ∷ 0 ∷ 0 ∷ 0 ∷ 1 ∷ b'a' ∷ 0 ∷ 0 ∷ 16 ∷ 0 ∷ 1 ∷ []

abbrev question : Packet
question = record { size = 19; reserved = 19; bytes = of_list question_bytes }

abbrev txt_question : RrHeader
txt_question = record { type = 16; class = 1; ttl = 0; rdlength = 0 }

question-IsMemory : IsMemory (of_list question_bytes)
question-IsMemory = of_list-IsMemory question_bytes (omega arith)

question-Reads : Reads question 19 txt_question []
unfolding get_rr_name get_labels label_case push_label of_list is_dns_char is_alnum header get_rrs
    skip_questions get_rr_question question_at
question-Reads = record { questions = refl; records = refl }

question_end : skip_rrs (header question).ancount 19 question ≡ ok 19
unfolding skip_rrs header of_list
question_end = refl

question_count : (header question).qdcount ≡ 1
unfolding header of_list
question_count = refl

question_ancount : record_count (header question) ≡ 0
unfolding header of_list
question_ancount = refl

add_answer_lem_example :
    (p' : Packet) × (add_answer (10 ∷ 0 ∷ 0 ∷ 1 ∷ []) 1 60 question ≡ ok p')
    × (header p' ≡ record (header question) { ancount = (header question).ancount + 1; qr = true })
    × Reads p' 19 txt_question ([] ++ new_rr (10 ∷ 0 ∷ 0 ∷ 1 ∷ []) 1 60 19 ∷ [])
    × IsPacket p'
    × (p'.size ≡ 19 + 16)
add_answer_lem_example =
    add_answer_lem (10 ∷ 0 ∷ 0 ∷ 1 ∷ []) 1 60 question 19 txt_question [] (omega arith)
      question-IsMemory (omega arith) (omega arith) (omega arith) question_count
      (omega (arith, question_ancount)) (omega (arith, question_ancount)) question-Reads
      question_end

get_txt_answer-set_txt_answer_example :
    (p' : Packet) × (set_txt_answer (codes "hi") 60 question ≡ ok p')
    × (get_txt_answer p' ≡ ok (codes "hi" ∷ []))
get_txt_answer-set_txt_answer_example =
    get_txt_answer-set_txt_answer (codes "hi") 60 question txt_question (omega arith)
      question-IsMemory (omega arith) (omega arith) (omega arith) question_count question_ancount
      question-Reads

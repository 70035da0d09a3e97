-- ===== src/Tests/Cache.antt =====
-- The cache.
use cdns.Dns.Cache.{
  CacheEntry, Cache, new_cache, lookup_entry, find, insert_entry, replace_entry, is_cacheable,
  clamp_ttl, store_answer, store, retrieve, collect_garbage,
}
use cdns.Dns.Cache.Fetch.{retrieve-collect_garbage, retrieve-store}
use cdns.Dns.Cache.Keys.{Distinct}
use cdns.Dns.Header.{header}
use cdns.Dns.Name.{is_dns_char, push_label, label_case, get_labels, get_rr_name}
use cdns.Dns.Record.{
  question_at, get_rr_question, record_at, get_rr, Question, get_question, skip_questions,
}
use cdns.Dns.Ttl.{min_ttl_loop, answers_min_ttl, answer_min_ttl}
use cdns.Dns.Ttl.Adjust.{retime, Reads}
use cdns.Network.Packet.{Packet, IsPacket, contents}
use cdns.Prelude.{
  codes, slice, of_list, ok, ◌+◌, ◌-◌, ◌%◌, ◌≡◌, refl, true, some, [], ◌∷◌, map, arith,
}
use cdns.Sys.Ascii.{to_lower, is_alnum, ascii_tolower_copy, strcasecmp-equal_iff}
use cdns.Tests.Messages.{
  answer, answer_rr, answer-IsPacket, answer-IsMemory, question_rr, answer-Reads,
}

abbrev pub asked_question : Question
asked_question = record { owner = codes "a."; class = 1; type = 1 }

abbrev empty_cache : Cache
empty_cache = new_cache 60

pub answer_asked : get_question answer ≡ ok asked_question
unfolding get_question get_rr_name get_labels label_case push_label of_list is_dns_char is_alnum
    header get_rr_question question_at
answer_asked = refl

pub answer_cacheable : is_cacheable answer ≡ true
unfolding is_cacheable of_list
answer_cacheable = refl

pub answer_ttl : answer_min_ttl answer ≡ ok 300
unfolding answer_min_ttl answers_min_ttl min_ttl_loop get_rr record_at get_rr_name get_labels
    label_case push_label of_list is_dns_char is_alnum slice header skip_questions get_rr_question
    question_at
answer_ttl = refl

retrieve-store_example :
    (c' : Cache) × (a : Packet) × (store 1000 answer empty_cache ≡ ok c')
    × (retrieve 1100 answer c' ≡ ok (some a))
    × (header a ≡ record (header answer) { id = (header answer).id })
    × Reads a 19 question_rr
        (map (retime ((1000 + clamp_ttl 60 300 - 1100) % 4294967296)) (answer_rr ∷ []))
    × IsPacket a
unfolding clamp_ttl
retrieve-store_example =
    retrieve-store 1000 1100 answer answer empty_cache asked_question asked_question 300 19
      question_rr (answer_rr ∷ []) answer-IsPacket answer-IsMemory (omega arith) (omega arith)
      (omega arith) answer-Reads answer_cacheable answer_asked refl answer_ttl answer-IsMemory
      answer_asked refl ((strcasecmp-equal_iff (codes "a.") (codes "a.")).1 refl) (omega arith)
      (omega arith)

abbrev old_entry : CacheEntry
old_entry = record { name = codes "a."; type = 1; deadline = 5; response = [] }

abbrev old_cache : Cache
old_cache = record { entries = old_entry ∷ []; min_ttl = 60 }

retrieve-collect_garbage_example :
    (retrieve 9 answer (collect_garbage 9 old_cache) ≡ retrieve 9 answer old_cache)
    × Distinct (collect_garbage 9 old_cache).entries
unfolding Distinct lookup_entry
retrieve-collect_garbage_example =
    retrieve-collect_garbage 9 9 answer old_cache (refl, tt) (omega arith)

abbrev kept_cache : Cache
kept_cache = record {
  entries =
      record { name = codes "a."; type = 1; deadline = 1300; response = contents answer } ∷ [];
  min_ttl = 60;
}

stored : store 1000 answer empty_cache ≡ ok kept_cache
unfolding store store_answer replace_entry find lookup_entry insert_entry ascii_tolower_copy
    to_lower clamp_ttl is_cacheable get_question answer_min_ttl answers_min_ttl min_ttl_loop get_rr
    record_at get_rr_name get_labels label_case push_label of_list is_dns_char is_alnum slice header
    skip_questions get_rr_question question_at
stored = refl

-- ===== src/Tests/Responder.antt =====
-- A responder with one server, an empty cache and no filters.
use cdns.Dns.Cache.{new_cache, lookup_entry, find, retrieve}
use cdns.Dns.Cache.Keys.{Distinct}
use cdns.Dns.Filter.{back_is, member, match_low, match_name}
use cdns.Dns.Filter.Load.{no_filter}
use cdns.Dns.Header.{header}
use cdns.Dns.Hosts.{find_host, response}
use cdns.Dns.Name.{is_dns_char, push_label, label_case, get_labels, get_rr_name}
use cdns.Dns.Record.{question_at, get_rr_question, Question, get_question, drop_last_dot}
use cdns.Dns.Responder.{
  Provider, Responder, filter_empty, passes, from_hosts, pre_filter, listed, zone_provider,
  select_random_provider, random_provider, passed_on, thrown, ask_provider, after_filter, process,
}
use cdns.Dns.Responder.Counts.{request_arrives, no_step, next_step, Kept, Reach-Kept}
use cdns.Dns.Responder.Forwarded.{IsAsked, process-IsAsked}
use cdns.Dns.Responder.Replies.{process-root}
use cdns.Dns.WordSets.{substr_match, before_upper, words_match}
use cdns.Network.Address.{Inet, ipv4}
use cdns.Network.Packet.{Packet, from_bytes, is_dns}
use cdns.Network.Requests.{resize, clean_loop, clean}
use cdns.Prelude.{
  Bytes, of_list, filter_host_short, ok, ◌≡◌, refl, true, false, Option, none, [], ◌∷◌, arith,
}
use cdns.Sys.Ascii.{to_lower, is_alnum, ascii_tolower_copy}
use cdns.Tests.Messages.{answer}

abbrev pub no_addresses : Inet → Bytes → Option Bytes
no_addresses family text = none

abbrev pub one_provider : Provider
one_provider = record {
  address = record { inet = ipv4; addr = 9 ∷ 9 ∷ 9 ∷ 9 ∷ []; port = 53 };
  tcp = false;
  failures = 0;
}

abbrev pub responder : Responder
responder = record {
  whitelist = no_filter;
  blacklist = no_filter;
  cache = new_cache 60;
  hosts = [];
  dns_providers = one_provider ∷ [];
  onion_provider = none;
  upstream_requests = [];
  blacklisted_count = 0;
  processed_count = 0;
  cached_count = 0;
  cache_dir = [];
  noipv6 = false;
}

pub answer-is_dns : is_dns answer ≡ true
unfolding is_dns of_list
answer-is_dns = refl

answer_asks : (process no_addresses true 1000 7 answer responder).1 ≡ passed_on (listed 0)
unfolding process pre_filter passes after_filter ask_provider random_provider select_random_provider
    zone_provider from_hosts response find_host retrieve find lookup_entry is_dns match_name
    filter_empty drop_last_dot match_low substr_match words_match before_upper member back_is
    ascii_tolower_copy to_lower clean clean_loop resize get_question get_rr_name get_labels
    label_case push_label of_list is_dns_char is_alnum header get_rr_question question_at
answer_asks = refl

process-IsAsked_example : (q : Question) × IsAsked no_addresses 1000 answer responder (listed 0) q
process-IsAsked_example =
    process-IsAsked no_addresses true 1000 7 answer responder (listed 0) answer_asks

Reach-Kept_example : Kept responder (process no_addresses true 1000 7 answer responder).0
unfolding Distinct
Reach-Kept_example =
    Reach-Kept no_addresses responder tt (omega arith)
      (next_step no_step (request_arrives true 1000 7 answer))

-- A message with a question for the root.
abbrev root_message : Packet
root_message = from_bytes (0 ∷ 7 ∷ 1 ∷ 0 ∷ 0 ∷ 1 ∷ 0 ∷ 0 ∷ 0 ∷ 0 ∷ 0 ∷ 0 ∷ 0 ∷ 0 ∷ 2 ∷ 0 ∷ 1 ∷ [])

root_is_dns : is_dns root_message ≡ true
unfolding is_dns of_list from_bytes
root_is_dns = refl

root_question : get_question root_message ≡ ok (record { owner = []; class = 1; type = 2 })
unfolding get_question get_rr_name get_labels label_case push_label of_list is_dns_char is_alnum
    header get_rr_question question_at from_bytes
root_question = refl

process-root_example :
    process no_addresses true 1000 7 root_message responder
    ≡ (record responder { processed_count = 1 }, thrown filter_host_short)
unfolding drop_last_dot
process-root_example =
    process-root no_addresses true 1000 7 root_message responder
      (record { owner = []; class = 1; type = 2 }) root_is_dns root_question refl

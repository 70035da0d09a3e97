-- ===== src/Tests/Servers.antt =====
-- A list of servers with lines of each kind and a last line that is not ended, and a responder that reads
-- it again.
use cdns.Dns.Crypt.Cresponder.Load.{certifier_of, load_providers}
use cdns.Dns.Crypt.Cresponder.Reload.{crypt_reload, crypt_reload_lem}
use cdns.Dns.Crypt.Resolvers.{parse_resolvers_list}
use cdns.Dns.Filter.{
  Filter, back_is, pop_back, member, match_name, keep, exact_covered, optimize, insert_exact,
  insert_all, merge_sets, merge,
}
use cdns.Dns.Filter.Load.{
  take_word, ignore_line, classify, add_to, add_entry, load_loop, no_filter, load_filter,
}
use cdns.Dns.Filter.Loaded.{IsFilter}
use cdns.Dns.Hosts.{wanted}
use cdns.Dns.Responder.Lines.{
  options_key, ServerLine, server_line, remark_line, unused_line, print_server_lines, print_unended,
  IsAddressWord, IsServerLine, IsUnended, IsIndented, line_server, line_servers, unended_server,
}
use cdns.Dns.Responder.Load.{from_file, Parameters, file_text, merge_files, reload}
use cdns.Dns.Responder.Merged.{matched_in, merge_files-matched_in}
use cdns.Dns.Responder.Reloaded.{IsReloaded}
use cdns.Dns.Responder.Servers.{from_file-print_server_lines}
use cdns.Dns.WordSets.{
  lex_less, is_prefix, is_infix, substr_match, substr_insert, before_upper, words_match, covered,
  insert_behind,
}
use cdns.Dns.WordSets.Sorted.{IsWordSet}
use cdns.Network.Address.{
  ipv4, ipv6, Address, find_char, rfind_char, split, make_address, new_address,
}
use cdns.Prelude.{
  if◌then◌else◌, Bytes, codes, bytes_eq, All, ok, ◌>>=◌, ◌≡◌, refl, true, false, ◌||◌, Option, none,
  some, List, [], ◌∷◌, arith,
}
use cdns.Sys.Ascii.{to_lower, ascii_tolower_copy}
use cdns.Sys.Text.{skip_spaces, c_str}
use cdns.Tests.Address.{one_text, one_parser}
use cdns.Tests.Channel.{client_keys}
use cdns.Tests.Cresponder.{cresponder}
use cdns.Tests.Resolvers.{read_hex}

abbrev one_server : Address
one_server = record { inet = ipv6; addr = 0 ∷ 1 ∷ []; port = 53 }

abbrev other_server : Address
other_server = record { inet = ipv4; addr = 10 ∷ 0 ∷ 0 ∷ 1 ∷ []; port = 53 }

abbrev server_lines : List (Bytes × ServerLine)
server_lines =
    ([], remark_line (codes " from the router"))
    ∷ (10 ∷ 32 ∷ [], server_line one_server (codes "::1") [])
    ∷ ([], unused_line options_key (codes " rotate"))
    ∷ ([], server_line other_server (codes "1.2") (codes " # first"))
    ∷ []

one_server_read : new_address one_parser (codes "::1") 53 ≡ ok one_server
unfolding new_address split rfind_char find_char make_address c_str bytes_eq
one_server_read = refl

other_server_read : new_address one_parser (codes "1.2") 53 ≡ ok other_server
unfolding new_address split rfind_char find_char make_address c_str bytes_eq
other_server_read = refl

one_server-IsAddressWord : IsAddressWord one_parser one_server (codes "::1")
one_server-IsAddressWord = (omega arith, (refl, (refl, (refl, tt))), one_server_read)

other_server-IsAddressWord : IsAddressWord one_parser other_server (codes "1.2")
other_server-IsAddressWord = (omega arith, (refl, (refl, (refl, tt))), other_server_read)

lines_written : All (IsIndented one_parser) server_lines
unfolding IsServerLine
lines_written = (
  (tt, (ground arith, omega arith)),
  (
    ((refl, (refl, tt)), (one_server-IsAddressWord, ((tt, omega arith), refl))),
    (
      (tt, ((ground arith, omega arith), refl)),
      ((tt, (other_server-IsAddressWord, ((ground arith, omega arith), refl))), tt),
    ),
  ),
)

from_file-print_server_lines_example :
    from_file one_parser false true
      (print_server_lines server_lines (print_unended (some (other_server, codes "1.2", []))))
    ≡ ok (line_servers false true server_lines [])
unfolding unended_server
from_file-print_server_lines_example =
    from_file-print_server_lines one_parser false true server_lines
      (some (other_server, codes "1.2", [])) lines_written
      (unfold IsUnended in (other_server-IsAddressWord, ((tt, omega arith), refl)))

-- The two servers of the ended lines.
read_servers :
    line_servers false true server_lines []
    ≡ record { address = one_server; tcp = true; failures = 0 }
      ∷ record { address = other_server; tcp = true; failures = 0 }
      ∷ []
unfolding line_servers line_server wanted
read_servers = refl

abbrev list_of_servers : Bytes → Option Bytes
list_of_servers name =
    if bytes_eq name (codes "resolv.conf") then some (print_server_lines server_lines []) else none

abbrev settings : Parameters
settings = record {
  resolvers = codes "resolv.conf";
  hosts = codes "hosts";
  onion = [];
  cachedir = [];
  noipv6 = false;
  net_proto = true;
  min_ttl = 60;
  whitelists = [];
  blacklists = codes "ads.txt" ∷ [];
}

crypt_reload_lem_example :
    let s =
      (crypt_reload one_parser one_text read_hex
        (λ r. client_keys)
        list_of_servers
        settings
        (codes "servers.csv")
        cresponder).0 in
    IsReloaded settings
      (from_file one_parser false true (file_text (list_of_servers (codes "resolv.conf"))))
      cresponder.base
      s.base
    × (s.server_end ≡ cresponder.server_end)
    × (s.dnscrypt_providers ≡ elim (reload one_parser list_of_servers settings cresponder.base).1 [
      | some e ↦ cresponder.dnscrypt_providers
      | none ↦
          (load_providers one_text
            (λ r. certifier_of client_keys r)
            false
            (parse_resolvers_list one_parser read_hex true (list_of_servers (codes "servers.csv")))
            cresponder.dnscrypt_providers).0
    ])
crypt_reload_lem_example =
    crypt_reload_lem one_parser one_text read_hex (λ r. client_keys) list_of_servers settings
      (codes "servers.csv") cresponder

abbrev word_lists : Bytes → Option Bytes
word_lists name =
    if bytes_eq name (codes "ads.txt")
    then some (codes "ads.com .bad.com")
    else some (codes "a.bad.com track.org")

abbrev all_words : Filter
all_words = record {
  prefix_ = [];
  suffix_ = codes ".bad.com" ∷ [];
  substrings_ = [];
  exact_ = codes "track.org" ∷ codes "ads.com" ∷ [];
}

words_merged :
    merge_files word_lists (codes "ads.txt" ∷ codes "more.txt" ∷ []) no_filter ≡ (all_words, none)
unfolding merge_files merge merge_sets insert_all load_filter load_loop take_word skip_spaces
    ignore_line add_entry classify add_to back_is pop_back c_str ascii_tolower_copy to_lower
    insert_behind covered substr_insert insert_exact member optimize keep exact_covered words_match
    before_upper substr_match is_infix is_prefix lex_less bytes_eq
words_merged = refl

no_filter-IsFilter : IsFilter no_filter
unfolding IsWordSet
no_filter-IsFilter = (tt, tt)

merge_files-matched_in_example :
    (match_name (codes "x.bad.com") all_words ≡ (
      match_name (codes "x.bad.com") no_filter >>= λ a.
      matched_in word_lists (codes "x.bad.com") (codes "ads.txt" ∷ codes "more.txt" ∷ []) >>= λ b.
      ok (a || b)))
    × IsFilter all_words
merge_files-matched_in_example =
    merge_files-matched_in word_lists (codes "ads.txt" ∷ codes "more.txt" ∷ []) no_filter all_words
      (codes "x.bad.com") no_filter-IsFilter words_merged

-- ===== src/Tests/Filter.antt =====
-- Filters and the sets of words.
use cdns.Dns.Filter.{
  Filter, back_is, pop_back, member, match_name, keep, exact_covered, optimize, insert_exact,
}
use cdns.Dns.Filter.Load.{
  take_word, ignore_line, classify, add_to, add_entry, load_loop, load_filter,
}
use cdns.Dns.Filter.Loaded.{Loads, load_filter-Loads}
use cdns.Dns.Filter.Optimized.{match_name-optimize}
use cdns.Dns.WordSets.{
  prefix_key, suffix_key, lex_less, is_prefix, is_infix, substr_match, substr_insert, contains,
  before_upper, words_match, covered, insert_behind, words_insert,
}
use cdns.Dns.WordSets.Inserted.{words_insert_lem}
use cdns.Dns.WordSets.Sorted.{IsWordSet, any_contained, words_match-any_contained}
use cdns.Prelude.{Bytes, codes, bytes_eq, ok, ◌≡◌, refl, ◌||◌, List, [], ◌∷◌, ◌++◌}
use cdns.Sys.Ascii.{to_lower, ascii_tolower_copy}
use cdns.Sys.Text.{skip_spaces, c_str}

abbrev some_words : List Bytes
some_words = codes "ads" ∷ codes "bad." ∷ []

some_words-IsWordSet : IsWordSet prefix_key some_words
unfolding IsWordSet lex_less is_prefix
some_words-IsWordSet = (((refl, refl), tt), (tt, tt))

words_match-any_contained_example :
    words_match prefix_key some_words (codes "bad.com")
    ≡ any_contained prefix_key some_words (codes "bad.com")
words_match-any_contained_example =
    words_match-any_contained prefix_key some_words (codes "bad.com") some_words-IsWordSet

words_insert_lem_example :
    IsWordSet prefix_key (words_insert prefix_key some_words (codes "ad"))
    × (words_match prefix_key (words_insert prefix_key some_words (codes "ad")) (codes "add") ≡ (
        contains prefix_key (codes "add") (codes "ad")
        || words_match prefix_key some_words (codes "add")))
words_insert_lem_example =
    words_insert_lem prefix_key some_words (codes "ad") (codes "add") some_words-IsWordSet

abbrev loaded : Filter
loaded = record {
  prefix_ = [];
  suffix_ = codes ".bad.com" ∷ [];
  substrings_ = codes "track" ∷ [];
  exact_ = codes "x.org" ∷ [];
}

load_filter_run :
    load_filter (codes "# ads" ++ 10 ∷ codes "*Track* .bad.com x.org a.bad.com") ≡ ok loaded
unfolding load_filter load_loop take_word skip_spaces ignore_line add_entry classify add_to back_is
    pop_back c_str ascii_tolower_copy to_lower insert_behind covered substr_insert insert_exact
    member optimize keep exact_covered words_match before_upper substr_match is_infix is_prefix
    lex_less bytes_eq
load_filter_run = refl

suffixes-IsWordSet : IsWordSet suffix_key (codes ".bad.com" ∷ [])
unfolding IsWordSet
suffixes-IsWordSet = (tt, tt)

prefixes-IsWordSet : IsWordSet prefix_key []
unfolding IsWordSet
prefixes-IsWordSet = tt

match_name-optimize_example :
    (match_name (codes "A.bad.com.") (optimize loaded) ≡ match_name (codes "A.bad.com.") loaded)
    × IsWordSet suffix_key (optimize loaded).suffix_
    × IsWordSet prefix_key (optimize loaded).prefix_
match_name-optimize_example =
    match_name-optimize loaded (codes "A.bad.com.") suffixes-IsWordSet prefixes-IsWordSet

load_filter-Loads_example : Loads (load_filter (codes "*track* .bad.com"))
load_filter-Loads_example = load_filter-Loads (codes "*track* .bad.com")

-- ===== src/Dns/Filter/Load.antt =====
-- dns/srcz/filter.cpp, the constructor from a stream.
use cdns.Dns.Filter.{Filter, max_qname_length, back_is, pop_back, optimize, insert_exact}
use cdns.Dns.WordSets.{prefix_key, suffix_key, substr_insert, words_insert}
use cdns.Prelude.{
  ltb, ◌==◌, if◌then◌else◌, Bytes, length, drop, filter_entry_long, out_of_fuel, Result, err, ok,
  ◌>>=◌, ℕ, zero, suc, ◌-◌, ◌&&◌, [], ◌∷◌,
}
use cdns.Sys.Ascii.{ascii_tolower_copy}
use cdns.Sys.Text.{front_is, is_space, skip_spaces, c_str}

-- The characters up to the next space, and the rest.
unfoldable pub take_word : Bytes → Bytes × Bytes
take_word [] = ([], [])
take_word (c ∷ s) =
    let more = take_word s in if is_space c then ([], c ∷ s) else (c ∷ more.0, more.1)

-- `text_stream.ignore (n, '\n')`
unfoldable pub ignore_line : ℕ → Bytes → Bytes
ignore_line n [] = []
ignore_line n (c ∷ s) =
    let rest = ignore_line (n - 1) s in if n == 0 then c ∷ s else if c == 10 then s else rest

pub data Filters : Type 0 where
  exact_entry prefix_entry suffix_entry substring_entry : Filters

-- The kind of an entry, and the entry without its stars.
unfoldable pub classify : Bytes → Filters × Bytes
classify word =
    let cut = if front_is b'*' word then drop 1 word else word in
    if front_is b'*' word && back_is b'*' word
    then (substring_entry, c_str (drop 1 (pop_back word)))
    else if back_is b'*' word
    then (prefix_entry, c_str (pop_back word))
    else (if front_is b'.' cut then (suffix_entry, c_str cut) else (exact_entry, c_str cut))

unfoldable pub add_to : Filters → Bytes → Filter → Filter
add_to exact_entry w f = record f { exact_ = insert_exact f.exact_ w }
add_to prefix_entry w f = record f { prefix_ = words_insert prefix_key f.prefix_ w }
add_to suffix_entry w f = record f { suffix_ = words_insert suffix_key f.suffix_ w }
add_to substring_entry w f = record f { substrings_ = substr_insert f.substrings_ w }

-- One entry that is no comment.
unfoldable pub add_entry : Bytes → Filter → Result Filter
add_entry word f =
    let entry = classify word in
    if ltb max_qname_length (length word)
    then err filter_entry_long
    else if length entry.1 == 0
    then ok f
    else ok (add_to entry.0 (ascii_tolower_copy entry.1) f)

-- The loop, on fuel.
unfoldable pub load_loop : ℕ → Bytes → Filter → Result Filter
load_loop zero text f = err out_of_fuel
load_loop (suc fuel) text f =
    let read = take_word (skip_spaces text) in
    let comment = load_loop fuel (ignore_line 10000000 read.1) f in
    let entry = (add_entry read.0 f >>= λ g. load_loop fuel read.1 g) in
    if length read.0 == 0 then ok f else if front_is b'#' read.0 then comment else entry

abbrev pub no_filter : Filter
no_filter = record { prefix_ = []; suffix_ = []; substrings_ = []; exact_ = [] }

-- The constructor; the text has a word less than characters and one.
unfoldable pub load_filter : Bytes → Result Filter
load_filter text = load_loop (suc (length text)) text no_filter >>= λ f. ok (optimize f)

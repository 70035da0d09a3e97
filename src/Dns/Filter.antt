-- ===== src/Dns/Filter.antt =====
-- dns/srcz/filter.cpp and dns/filter.hxx: the filter of host names. A sorted set is a list in its order, and a
-- hash set a list without an element twice.
pub mod Merged
pub mod Load
pub mod Loaded
pub mod Texts
pub mod Optimized
use cdns.Dns.Record.{hostname}
use cdns.Dns.WordSets.{
  prefix_key, suffix_key, substr_match, substr_insert, words_match, words_insert,
}
use cdns.Prelude.{
  ltb, ◌==◌, if◌then◌else◌, Bytes, bytes_eq, length, drop, filter_host_long, filter_host_short,
  Result, err, ok, ℕ, Bool, true, false, not, ◌&&◌, ◌||◌, List, [], ◌∷◌, ◌++◌,
}
use cdns.Sys.Ascii.{ascii_tolower_copy}
use cdns.Sys.Text.{front_is}

pub record Filter : Type 0 where
  pub prefix_ : List Bytes
  pub suffix_ : List Bytes
  pub substrings_ : List Bytes
  pub exact_ : List Bytes

abbrev pub max_qname_length : ℕ
max_qname_length = 1024

unfoldable pub back_is : ℕ → Bytes → Bool
back_is ch [] = false
back_is ch (c ∷ []) = c == ch
back_is ch (c ∷ d ∷ s) = back_is ch (d ∷ s)

unfoldable pub pop_back : Bytes → Bytes
pop_back [] = []
pop_back (c ∷ []) = []
pop_back (c ∷ d ∷ s) = c ∷ pop_back (d ∷ s)

unfoldable pub member : Bytes → List Bytes → Bool
member w [] = false
member w (v ∷ vs) = bytes_eq v w || member w vs

-- `if ('.' != s.front()) s.insert (s.begin(), '.')`
abbrev pub with_front_dot : Bytes → Bytes
with_front_dot s = if front_is b'.' s then s else b'.' ∷ s

-- `if ('.' != s.back()) s.push_back ('.')`
abbrev pub with_back_dot : Bytes → Bytes
with_back_dot s = if back_is b'.' s then s else s ++ b'.' ∷ []

-- `if ('.' == s.front()) s.erase (s.begin())`
abbrev pub without_front_dot : Bytes → Bytes
without_front_dot s = if front_is b'.' s then drop 1 s else s

-- The part of `filter::match` behind the checks, for the name in lower case without its last dot.
unfoldable pub match_low : Bytes → Filter → Bool
match_low low f =
    let dotted_low = with_front_dot low in
    let closed_low = with_back_dot dotted_low in
    if member low f.exact_
    then true
    else if words_match suffix_key f.suffix_ dotted_low
    then true
    else if substr_match f.substrings_ closed_low
    then true
    else words_match prefix_key f.prefix_ (without_front_dot closed_low)

-- `filter::match`
unfoldable pub match_name : Bytes → Filter → Result Bool
match_name hostname f =
    let len = length hostname in
    let name = if ltb 1 len && back_is b'.' hostname then pop_back hostname else hostname in
    if ltb max_qname_length len
    then err filter_host_long
    else if length name == 0
    then err filter_host_short
    else ok (match_low (ascii_tolower_copy name) f)

-- The elements that pass a test.
unfoldable pub keep : (Bytes → Bool) → List Bytes → List Bytes
keep test [] = []
keep test (w ∷ ws) = let rest = keep test ws in if test w then w ∷ rest else rest

-- What `filter::optimize` finds matched by the other sets.
unfoldable pub exact_covered : List Bytes → List Bytes → List Bytes → Bytes → Bool
exact_covered suffix substrings prefix w =
    let str = with_front_dot w in
    let closed = with_back_dot str in
    if words_match suffix_key suffix str
    then true
    else if substr_match substrings closed
    then true
    else words_match prefix_key prefix (without_front_dot closed)

-- `filter::optimize`
unfoldable pub optimize : Filter → Filter
optimize f =
    let suffix = keep (λ d. not (substr_match f.substrings_ (with_back_dot d))) f.suffix_ in
    let prefix = keep (λ d. not (substr_match f.substrings_ (with_front_dot d))) f.prefix_ in
    record {
      prefix_ = prefix;
      suffix_ = suffix;
      substrings_ = f.substrings_;
      exact_ = keep (λ w. not (exact_covered suffix f.substrings_ prefix w)) f.exact_;
    }

unfoldable pub insert_exact : List Bytes → Bytes → List Bytes
insert_exact ws w = if member w ws then ws else w ∷ ws

-- All elements of a set, one after the other.
unfoldable pub insert_all : (List Bytes → Bytes → List Bytes) → List Bytes → List Bytes → List Bytes
insert_all insert ws [] = ws
insert_all insert ws (v ∷ vs) = insert_all insert (insert ws v) vs

-- `filter::merge`: an empty set is swapped with that of the other filter.
unfoldable pub merge_sets : (List Bytes → Bytes → List Bytes) → List Bytes → List Bytes → List Bytes
merge_sets insert [] others = others
merge_sets insert (w ∷ ws) others = insert_all insert (w ∷ ws) others

unfoldable pub merge : Filter → Filter → Filter
merge f other = optimize (record {
  prefix_ = merge_sets (words_insert prefix_key) f.prefix_ other.prefix_;
  suffix_ = merge_sets (words_insert suffix_key) f.suffix_ other.suffix_;
  substrings_ = merge_sets substr_insert f.substrings_ other.substrings_;
  exact_ = merge_sets insert_exact f.exact_ other.exact_;
})

-- ===== src/Dns/Filter/Optimized.antt =====
-- A filter that is optimized matches the same names.
use cdns.Dns.Filter.{
  Filter, max_qname_length, back_is, pop_back, member, with_front_dot, with_back_dot, match_low,
  match_name, keep, exact_covered, optimize,
}
use cdns.Dns.Filter.Texts.{
  infix-with_back_dot, closed_form, infix-with_front_dot, substr_match-infix,
}
use cdns.Dns.Record.{hostname}
use cdns.Dns.WordSets.{prefix_key, suffix_key, is_infix, substr_match, contains, words_match}
use cdns.Dns.WordSets.Sorted.{Apart, IsWordSet, any_contained, words_match-any_contained}
use cdns.Prelude.{
  ltb, ◌==◌, if◌then◌else◌, Bool-cases, Bytes, bytes_eq, bytes_eq_iff, length, All,
  filter_host_long, filter_host_short, err, ok, ◌≡◌, refl, sym, ap, ◌∙◌, inl, inr, Bool, true,
  false, not, ◌&&◌, ◌||◌, List, [], ◌∷◌, arith,
}
use cdns.Sys.Ascii.{ascii_tolower_copy}

keep-All :
    (P : Bytes → Type 0) (test : Bytes → Bool) (ws : List Bytes) → All P ws → All P (keep test ws)
unfolding keep
keep-All P test [] a = tt
keep-All P test (w ∷ ws) a = elim (Bool-cases (test w)) [
  | inl stays ↦ rw stays (a.0, keep-All P test ws a.1)
  | inr goes ↦ rw goes (keep-All P test ws a.1)
]

pub keep-IsWordSet :
    (key : Bytes → Bytes) (test : Bytes → Bool) (ws : List Bytes)
    → IsWordSet key ws
    → IsWordSet key (keep test ws)
unfolding keep IsWordSet
keep-IsWordSet key test [] set = tt
keep-IsWordSet key test (w ∷ ws) set = elim (Bool-cases (test w)) [
  | inl stays ↦ rw stays (keep-All (Apart key w) test ws set.0, keep-IsWordSet key test ws set.1)
  | inr goes ↦ rw goes (keep-IsWordSet key test ws set.1)
]

-- Words that are taken out are covered by `other`.
keep-any :
    (key : Bytes → Bytes) (test : Bytes → Bool) (str : Bytes) (other : Bool) (ws : List Bytes)
    → ((d : Bytes) → contains key str d ≡ true → test d ≡ false → other ≡ true)
    → (other || any_contained key (keep test ws) str) ≡ (other || any_contained key ws str)
unfolding keep any_contained
keep-any key test str other [] cover = refl
keep-any key test str other (w ∷ ws) cover =
    ground (arith, keep-any key test str other ws cover, cover w)

keep-match :
    (key : Bytes → Bytes) (test : Bytes → Bool) (str : Bytes) (other : Bool) (ws : List Bytes)
    → IsWordSet key ws
    → ((d : Bytes) → contains key str d ≡ true → test d ≡ false → other ≡ true)
    → (other || words_match key (keep test ws) str) ≡ (other || words_match key ws str)
keep-match key test str other ws set cover =
    ap (λ b. other || b)
      (words_match-any_contained key (keep test ws) str (keep-IsWordSet key test ws set))
    ∙ keep-any key test str other ws cover
    ∙ ap (λ b. other || b) (sym (words_match-any_contained key ws str set))

member-keep :
    (covers : Bytes → Bool) (low : Bytes) (ws : List Bytes)
    → (covers low || member low (keep (λ w. not (covers w)) ws)) ≡ (covers low || member low ws)
unfolding keep member
member-keep covers low [] = refl
member-keep covers low (w ∷ ws) = elim (Bool-cases (bytes_eq w low)) [
  | inl same ↦
      let e : covers w ≡ covers low = ap covers ((bytes_eq_iff w low).0 same) in
      ground (arith, member-keep covers low ws)
  | inr other ↦ ground (arith, member-keep covers low ws)
]

-- The three tests behind the one for whole names.
covered_parts :
    (suffix substrings prefix : List Bytes) (w u : Bytes)
    → with_back_dot (with_front_dot w) ≡ b'.' ∷ u
    → exact_covered suffix substrings prefix w ≡ (
        words_match suffix_key suffix (with_front_dot w)
        || (substr_match substrings (b'.' ∷ u) || words_match prefix_key prefix u))
unfolding exact_covered
covered_parts suffix substrings prefix w u e = rw e (ground arith)

match_low-covered :
    (low : Bytes) (f : Filter)
    → match_low low f ≡ (member low f.exact_ || exact_covered f.suffix_ f.substrings_ f.prefix_ low)
unfolding match_low exact_covered
match_low-covered low f = ground arith

-- Taking out the words that hold a substring of the set changes no match.
pub exact_covered-optimize :
    (f : Filter) (low : Bytes)
    → IsWordSet suffix_key f.suffix_
    → IsWordSet prefix_key f.prefix_
    → exact_covered (optimize f).suffix_ f.substrings_ (optimize f).prefix_ low
      ≡ exact_covered f.suffix_ f.substrings_ f.prefix_ low
unfolding optimize
exact_covered-optimize f low vs vp =
    let (u, e) = closed_form low in
    let sub = substr_match f.substrings_ (b'.' ∷ u) in
    let s =
      keep-match suffix_key (λ d. not (substr_match f.substrings_ (with_back_dot d)))
        (with_front_dot low) sub f.suffix_ vs
        (λ d h k.
          substr_match-infix f.substrings_ (with_back_dot d) (b'.' ∷ u)
            (ap (is_infix (with_back_dot d)) (sym e) ∙ infix-with_back_dot d (with_front_dot low) h)
            (ground arith)) in
    let p =
      keep-match prefix_key (λ d. not (substr_match f.substrings_ (with_front_dot d))) u sub
        f.prefix_ vp
        (λ d h k.
          substr_match-infix f.substrings_ (with_front_dot d) (b'.' ∷ u)
            (infix-with_front_dot d u h) (ground arith)) in
    covered_parts (optimize f).suffix_ f.substrings_ (optimize f).prefix_ low u e
    ∙ ground arith
    ∙ sym (covered_parts f.suffix_ f.substrings_ f.prefix_ low u e)

match_low-optimize :
    (f : Filter) (low : Bytes)
    → IsWordSet suffix_key f.suffix_
    → IsWordSet prefix_key f.prefix_
    → match_low low (optimize f) ≡ match_low low f
match_low-optimize f low vs vp =
    let covers = exact_covered (optimize f).suffix_ f.substrings_ (optimize f).prefix_ in
    let same = exact_covered-optimize f low vs vp in
    let exact = optimized_exact f low in after f low ∙ ground arith ∙ sym (match_low-covered low f)
  where
    optimized_exact :
        (f : Filter) (low : Bytes)
        → let covers = exact_covered (optimize f).suffix_ f.substrings_ (optimize f).prefix_ in
          (covers low || member low (optimize f).exact_) ≡ (covers low || member low f.exact_)
    optimized_exact f low =
        unfold optimize in
        (member-keep (exact_covered (optimize f).suffix_ f.substrings_ (optimize f).prefix_) low
          f.exact_)

    after :
        (f : Filter) (low : Bytes)
        → match_low low (optimize f) ≡ (
            member low (optimize f).exact_
            || exact_covered (optimize f).suffix_ f.substrings_ (optimize f).prefix_ low)
    after f low = unfold optimize in (match_low-covered low (optimize f))

-- A filter whose sets of suffixes and prefixes are sorted and hold no word that contains another
-- matches the same host names, with the same errors, after it is optimized; and those two sets
-- are still such sets.
pub match_name-optimize :
    (f : Filter) (hostname : Bytes)
    → IsWordSet suffix_key f.suffix_
    → IsWordSet prefix_key f.prefix_
    → (match_name hostname (optimize f) ≡ match_name hostname f)
      × IsWordSet suffix_key (optimize f).suffix_
      × IsWordSet prefix_key (optimize f).prefix_
unfolding match_name
match_name-optimize f hostname vs vp = (
  ap
      (λ b.
        if ltb max_qname_length (length hostname)
        then err filter_host_long
        else if length (name_of hostname) == 0
        then err filter_host_short
        else ok b)
      (match_low-optimize f (ascii_tolower_copy (name_of hostname)) vs vp),
  sets.0,
  sets.1,
)
  where
    sets : IsWordSet suffix_key (optimize f).suffix_ × IsWordSet prefix_key (optimize f).prefix_
    sets =
        unfold optimize in
        (
          keep-IsWordSet suffix_key (λ d. not (substr_match f.substrings_ (with_back_dot d)))
              f.suffix_ vs,
          keep-IsWordSet prefix_key (λ d. not (substr_match f.substrings_ (with_front_dot d)))
              f.prefix_ vp,
        )

    name_of : Bytes → Bytes
    name_of h = if ltb 1 (length h) && back_is b'.' h then pop_back h else h

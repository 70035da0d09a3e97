-- ===== src/Dns/Filter/Merged.antt =====
-- `filter::merge` gives a filter that matches what one of the two matches.
use cdns.Dns.Filter.{
  Filter, max_qname_length, back_is, pop_back, member, with_front_dot, with_back_dot,
  without_front_dot, match_low, match_name, insert_exact, insert_all, merge_sets, merge,
}
use cdns.Dns.Filter.Loaded.{IsFilter}
use cdns.Dns.Filter.Optimized.{match_name-optimize}
use cdns.Dns.Record.{hostname}
use cdns.Dns.WordSets.{
  prefix_key, suffix_key, is_infix, substr_match, substr_insert, contains, words_match,
  words_insert,
}
use cdns.Dns.WordSets.Inserted.{words_insert_lem}
use cdns.Dns.WordSets.Sorted.{IsWordSet, any_contained, words_match-any_contained}
use cdns.Dns.WordSets.Substrings.{holds_iff, substr_match-substr_insert}
use cdns.Prelude.{
  ltb, ◌==◌, if◌then◌else◌, Bool-cases, Bytes, bytes_eq, bytes_eq_iff, length, ok, ◌>>=◌, ◌≡◌, refl,
  ap, ◌∙◌, subst, inl, inr, Bool, true, false, ◌&&◌, ◌||◌, List, [], ◌∷◌, arith,
}
use cdns.Sys.Ascii.{ascii_tolower_copy}

-- Whether one of the words passes a test.
unfoldable any_of : (Bytes → Bool) → List Bytes → Bool
any_of test [] = false
any_of test (w ∷ ws) = test w || any_of test ws

-- A set with an insertion, a test of the set, and the test of a word that an insertion adds to it.
module _ (insert : List Bytes → Bytes → List Bytes) (test : List Bytes → Bool) (one : Bytes → Bool)
    (IsKept : List Bytes → Type 0)
    (step : (ws : List Bytes) (w : Bytes)
      → IsKept ws
      → IsKept (insert ws w) × (test (insert ws w) ≡ (one w || test ws))) where
  insert_all-any_of :
      (ws others : List Bytes)
      → IsKept ws
      → IsKept (insert_all insert ws others)
        × (test (insert_all insert ws others) ≡ (test ws || any_of one others))
  unfolding insert_all any_of
  insert_all-any_of ws [] k = (k, ground arith)
  insert_all-any_of ws (v ∷ vs) k =
      let (k', e) = step ws v k in
      let (k'', e') = insert_all-any_of (insert ws v) vs k' in (k'', ground (arith, e, e'))

  merge_sets-test :
      (ws others : List Bytes)
      → IsKept ws
      → IsKept others
      → test [] ≡ false
      → test others ≡ any_of one others
      → IsKept (merge_sets insert ws others)
        × (test (merge_sets insert ws others) ≡ (test ws || test others))
  unfolding merge_sets
  merge_sets-test [] others k k' e a = (k', ground (arith, e))
  merge_sets-test (w ∷ ws) others k k' e a =
      let (k'', m) = insert_all-any_of (w ∷ ws) others k in (k'', ground (arith, m, a))

any_contained-any_of :
    (key : Bytes → Bytes) (str : Bytes) (ws : List Bytes)
    → any_contained key ws str ≡ any_of (λ w. contains key str w) ws
unfolding any_contained any_of
any_contained-any_of key str [] = refl
any_contained-any_of key str (w ∷ ws) =
    ap (λ b. contains key str w || b) (any_contained-any_of key str ws)

merge_sets-words :
    (key : Bytes → Bytes) (str : Bytes) (ws others : List Bytes)
    → IsWordSet key ws
    → IsWordSet key others
    → IsWordSet key (merge_sets (words_insert key) ws others)
      × (words_match key (merge_sets (words_insert key) ws others) str
          ≡ (words_match key ws str || words_match key others str))
merge_sets-words key str ws others k k' =
    merge_sets-test (words_insert key) (λ l. words_match key l str) (λ w. contains key str w)
      (IsWordSet key) (λ l w. words_insert_lem key l w str) ws others k k'
      (words_match-any_contained key [] str (unfold IsWordSet in tt)
        ∙ any_contained-any_of key str []
        ∙ (unfold any_of in refl))
      (words_match-any_contained key others str k' ∙ any_contained-any_of key str others)

substr_match-any_of :
    (str : Bytes) (ws : List Bytes) → substr_match ws str ≡ any_of (λ w. is_infix w str) ws
unfolding substr_match any_of
substr_match-any_of str [] = refl
substr_match-any_of str (w ∷ ws) = ground (arith, holds_iff w str, substr_match-any_of str ws)

merge_sets-substrings :
    (str : Bytes) (ws others : List Bytes)
    → substr_match (merge_sets substr_insert ws others) str
      ≡ (substr_match ws str || substr_match others str)
merge_sets-substrings str ws others =
    (merge_sets-test substr_insert (λ l. substr_match l str) (λ w. is_infix w str) (λ _. Unit {0})
      (λ l w k. (tt, substr_match-substr_insert l w str)) ws others tt tt
      (unfold substr_match in refl) (substr_match-any_of str others)).1

member-any_of : (x : Bytes) (ws : List Bytes) → member x ws ≡ any_of (λ v. bytes_eq v x) ws
unfolding member any_of
member-any_of x [] = refl
member-any_of x (w ∷ ws) = ap (λ b. bytes_eq w x || b) (member-any_of x ws)

member-insert_exact :
    (x : Bytes) (ws : List Bytes) (w : Bytes)
    → member x (insert_exact ws w) ≡ (bytes_eq w x || member x ws)
unfolding insert_exact member
member-insert_exact x ws w = elim (Bool-cases (member w ws)) [
  | inr out ↦ rw out refl
  | inl in_set ↦ elim (Bool-cases (bytes_eq w x)) [
    | inl same ↦
        let e : w ≡ x = (bytes_eq_iff w x).0 same in
        let found : member x ws ≡ true = subst (λ y. member y ws ≡ true) e in_set in
        rw (in_set, same, found) refl
    | inr other ↦ rw (in_set, other) refl
  ]
]

merge_sets-exact :
    (x : Bytes) (ws others : List Bytes)
    → member x (merge_sets insert_exact ws others) ≡ (member x ws || member x others)
merge_sets-exact x ws others =
    (merge_sets-test insert_exact (member x) (λ v. bytes_eq v x) (λ _. Unit {0})
      (λ l w k. (tt, member-insert_exact x l w)) ws others tt tt (unfold member in refl)
      (member-any_of x others)).1

-- The filter before it is optimized.
abbrev sets_of : Filter → Filter → Filter
sets_of f g = record {
  prefix_ = merge_sets (words_insert prefix_key) f.prefix_ g.prefix_;
  suffix_ = merge_sets (words_insert suffix_key) f.suffix_ g.suffix_;
  substrings_ = merge_sets substr_insert f.substrings_ g.substrings_;
  exact_ = merge_sets insert_exact f.exact_ g.exact_;
}

match_low-sets_of :
    (f g : Filter) (low : Bytes)
    → IsFilter f
    → IsFilter g
    → match_low low (sets_of f g) ≡ (match_low low f || match_low low g)
unfolding match_low
match_low-sets_of f g low v v' =
    let dotted = with_front_dot low in
    let closed = with_back_dot dotted in
    ground (
      arith,
      merge_sets-exact low f.exact_ g.exact_,
      (merge_sets-words suffix_key dotted f.suffix_ g.suffix_ v.0 v'.0).1,
      merge_sets-substrings closed f.substrings_ g.substrings_,
      (merge_sets-words prefix_key (without_front_dot closed) f.prefix_ g.prefix_ v.1 v'.1).1,
    )

match_name-sets_of :
    (f g : Filter) (hostname : Bytes)
    → IsFilter f
    → IsFilter g
    → match_name hostname (sets_of f g)
      ≡ (match_name hostname f >>= λ a. match_name hostname g >>= λ b. ok (a || b))
unfolding match_name
match_name-sets_of f g hostname v v' =
    let len = length hostname in
    let name = if ltb 1 len && back_is b'.' hostname then pop_back hostname else hostname in
    elim (Bool-cases (ltb max_qname_length len)) [
      | inl long ↦ rw long refl
      | inr fits ↦ elim (Bool-cases (length name == 0)) [
        | inl blank ↦ rw (fits, blank) refl
        | inr some_name ↦
            rw (fits, some_name) (ap ok (match_low-sets_of f g (ascii_tolower_copy name) v v'))
      ]
    ]

-- For two filters whose sets of suffixes and prefixes are sorted and hold no word that contains another: the
-- merged filter matches the host names that one of them matches, with the same errors, and those two
-- sets of it are such sets too.
pub match_name-merge :
    (f g : Filter) (hostname : Bytes)
    → IsFilter f
    → IsFilter g
    → (match_name hostname (merge f g)
        ≡ (match_name hostname f >>= λ a. match_name hostname g >>= λ b. ok (a || b)))
      × IsFilter (merge f g)
unfolding merge
match_name-merge f g hostname v v' =
    let suffixes = merge_sets-words suffix_key [] f.suffix_ g.suffix_ v.0 v'.0 in
    let prefixes = merge_sets-words prefix_key [] f.prefix_ g.prefix_ v.1 v'.1 in
    let (e, s, p) = match_name-optimize (sets_of f g) hostname suffixes.0 prefixes.0 in
    (e ∙ match_name-sets_of f g hostname v v', (s, p))

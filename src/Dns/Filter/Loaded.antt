-- ===== src/Dns/Filter/Loaded.antt =====
-- Loading a filter ends, and gives sets of words.
use cdns.Dns.Cache.Kept.{entry}
use cdns.Dns.Filter.{Filter, max_qname_length, with_front_dot, with_back_dot, optimize}
use cdns.Dns.Filter.Load.{
  take_word, ignore_line, Filters, exact_entry, prefix_entry, suffix_entry, substring_entry,
  classify, add_to, add_entry, load_loop, no_filter, load_filter,
}
use cdns.Dns.Filter.Optimized.{keep-IsWordSet}
use cdns.Dns.WordSets.{prefix_key, suffix_key, substr_match}
use cdns.Dns.WordSets.Inserted.{insert_behind-IsWordSet}
use cdns.Dns.WordSets.Sorted.{IsWordSet}
use cdns.Prelude.{
  ltb, ◌==◌, Bool-cases, Bytes, length, filter_entry_long, Result, err, ok, ℕ, zero, suc, ◌+◌, ◌-◌,
  ◌≤◌, ◌<◌, ◌≡◌, refl, ◌⊎◌, inl, inr, not, none, [], ◌∷◌, arith,
}
use cdns.Sys.Ascii.{ascii_tolower_copy}
use cdns.Sys.Text.{front_is, skip_spaces}

-- The two sorted sets are such sets.
abbrev pub IsFilter : Filter → Type 0
IsFilter f = IsWordSet suffix_key f.suffix_ × IsWordSet prefix_key f.prefix_

-- A filter with such sets, or the one error of loading.
abbrev pub Loads : Result Filter → Type 0
Loads r = ((f : Filter) × (r ≡ ok f) × IsFilter f) ⊎ (r ≡ err filter_entry_long)

length-skip_spaces : (s : Bytes) → length (skip_spaces s) ≤ length s
unfolding skip_spaces
length-skip_spaces [] = omega arith
length-skip_spaces (c ∷ s) = ground (arith, length-skip_spaces s)

length-take_word : (s : Bytes) → length (take_word s).0 + length (take_word s).1 ≡ length s
unfolding take_word
length-take_word [] = omega arith
length-take_word (c ∷ s) = ground (arith, length-take_word s)

pub length-ignore_line : (n : ℕ) (s : Bytes) → length (ignore_line n s) ≤ length s
unfolding ignore_line
length-ignore_line n [] = omega arith
length-ignore_line n (c ∷ s) = ground (arith, length-ignore_line (n - 1) s)

add_to-IsFilter : (k : Filters) (w : Bytes) (f : Filter) → IsFilter f → IsFilter (add_to k w f)
unfolding add_to
add_to-IsFilter exact_entry w f v = v
add_to-IsFilter prefix_entry w f v = (v.0, insert_behind-IsWordSet prefix_key none f.prefix_ w v.1)
add_to-IsFilter suffix_entry w f v = (insert_behind-IsWordSet suffix_key none f.suffix_ w v.0, v.1)
add_to-IsFilter substring_entry w f v = v

add_entry-Loads : (word : Bytes) (f : Filter) → IsFilter f → Loads (add_entry word f)
unfolding add_entry
add_entry-Loads word f v = elim (Bool-cases (ltb max_qname_length (length word))) [
  | inl long ↦ inr (rw long refl)
  | inr short ↦ elim (Bool-cases (length (classify word).1 == 0)) [
    | inl blank ↦ inl (f, rw (short, blank) refl, v)
    | inr entry ↦ inl (
      add_to (classify word).0 (ascii_tolower_copy (classify word).1) f,
      rw (short, entry) refl,
      add_to-IsFilter (classify word).0 (ascii_tolower_copy (classify word).1) f v,
    )
  ]
]

load_loop-Loads :
    (fuel : ℕ) (text : Bytes) (f : Filter)
    → length text < fuel
    → IsFilter f
    → Loads (load_loop fuel text f)
unfolding load_loop
load_loop-Loads zero text f lt v = absurd (omega arith)
load_loop-Loads (suc fuel) text f lt v =
    let read = take_word (skip_spaces text) in
    let a = length-skip_spaces text in
    let b = length-take_word (skip_spaces text) in
    elim (Bool-cases (length read.0 == 0)) [
      | inl end ↦ inl (f, rw (load_loop, end) refl, v)
      | inr word ↦
          let n : length read.1 < length text = ground arith in
          elim (Bool-cases (front_is b'#' read.0)) [
            | inl comment ↦
                rw (load_loop, word, comment)
                  (load_loop-Loads fuel (ignore_line 10000000 read.1) f
                    (omega (arith, length-ignore_line 10000000 read.1)) v)
            | inr entry ↦ elim (add_entry-Loads read.0 f v) [
              | inr long ↦ inr (rw (load_loop, word, entry, long) refl)
              | inl (g, e, vg) ↦
                  rw (load_loop, word, entry, e) (load_loop-Loads fuel read.1 g (omega arith) vg)
            ]
          ]
    ]

-- Loading a filter from a text ends. It gives a filter whose sets of suffixes and prefixes are
-- sorted and hold no word that contains another, or the error of an entry that is too long.
pub load_filter-Loads : (text : Bytes) → Loads (load_filter text)
unfolding load_filter optimize
load_filter-Loads text =
    elim (load_loop-Loads (suc (length text)) text no_filter (omega arith) none_yet) [
      | inr long ↦ inr (rw long refl)
      | inl (f, e, v) ↦ inl (
        optimize f,
        rw e refl,
        (
          keep-IsWordSet suffix_key (λ d. not (substr_match f.substrings_ (with_back_dot d)))
              f.suffix_ v.0,
          keep-IsWordSet prefix_key (λ d. not (substr_match f.substrings_ (with_front_dot d)))
              f.prefix_ v.1,
        ),
      )
    ]
  where
    none_yet : IsFilter no_filter
    none_yet = unfold IsWordSet in (tt, tt)

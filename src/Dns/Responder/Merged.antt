-- ===== src/Dns/Responder/Merged.antt =====
-- The filters that `responder::reload` merges from files, as one filter.
use cdns.Dns.Filter.{Filter, match_name, merge}
use cdns.Dns.Filter.Load.{load_filter}
use cdns.Dns.Filter.Loaded.{IsFilter, load_filter-Loads}
use cdns.Dns.Filter.Merged.{match_name-merge}
use cdns.Dns.Record.{hostname}
use cdns.Dns.Responder.Load.{file_text, merge_files}
use cdns.Prelude.{
  Bytes, Error, filter_entry_long, Result, err, ok, ◌>>=◌, ◌≡◌, refl, sym, ap, ◌∙◌, inl, inr, Bool,
  false, ◌||◌, Option, none, some, List, [], ◌∷◌, arith,
}

-- Whether one of the filters of the files matches a name, with the first error.
unfoldable pub matched_in : (Bytes → Option Bytes) → Bytes → List Bytes → Result Bool
matched_in files hostname [] = ok false
matched_in files hostname (name ∷ names) = do
  g ← load_filter (file_text (files name))
  a ← match_name hostname g
  b ← matched_in files hostname names
  ok (a || b)

or_results : Result Bool → Result Bool → Result Bool
or_results x y = x >>= λ a. y >>= λ b. ok (a || b)

or_results_assoc :
    (x y z : Result Bool) → or_results (or_results x y) z ≡ or_results x (or_results y z)
unfolding or_results
or_results_assoc (err e) y z = refl
or_results_assoc (ok a) (err e) z = refl
or_results_assoc (ok a) (ok b) (err e) = refl
or_results_assoc (ok a) (ok b) (ok c) = ground arith

or_results-false : (x : Result Bool) → x ≡ or_results x (ok false)
unfolding or_results
or_results-false (err e) = refl
or_results-false (ok a) = ground arith

-- For a filter whose sets of suffixes and prefixes are sorted and hold no word that contains another, and
-- files that are merged into it without an exception: the filter that comes of it matches the host names
-- that the filter or that of one of the files matches, with the same errors, and has such sets.
pub merge_files-matched_in :
    (files : Bytes → Option Bytes) (names : List Bytes) (f merged : Filter) (hostname : Bytes)
    → IsFilter f
    → merge_files files names f ≡ (merged, none)
    → (match_name hostname merged
        ≡ (match_name hostname f >>= λ a. matched_in files hostname names >>= λ b. ok (a || b)))
      × IsFilter merged
unfolding merge_files matched_in or_results
merge_files-matched_in files [] f merged hostname v e =
    let same : f ≡ merged = ap (λ m. m.0) e in
    rw (sym same) (or_results-false (match_name hostname f), v)
merge_files-matched_in files (name ∷ names) f merged hostname v e =
    elim (load_filter-Loads (file_text (files name))) [
      | inl (g, l, v') ↦
          let e' : merge_files files names (merge f g) ≡ (merged, none) =
            rw (merge_files, l) at e in
          let (m, k) = match_name-merge f g hostname v v' in
          let (m', k') = merge_files-matched_in files names (merge f g) merged hostname k e' in
          let both = or_results (match_name hostname f) (match_name hostname g) in
          let rest = matched_in files hostname names in
          let whole : match_name hostname merged ≡ or_results both rest =
            m' ∙ ap (λ r. or_results r rest) m in
          rw (matched_in, l)
            (whole ∙ or_results_assoc (match_name hostname f) (match_name hostname g) rest, k')
      | inr l ↦
          let e' : (f, some filter_entry_long) ≡ (merged, none) = rw (merge_files, l) at e in
          absurd (some_none (ap (λ m. m.1) e'))
    ]
  where
    some_none : {x : Error} → some x ≡ none → ⊥
    some_none h = cc (h)

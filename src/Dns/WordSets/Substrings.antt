-- ===== src/Dns/WordSets/Substrings.antt =====
-- The set of substrings matches what its elements match, whatever is inserted.
use cdns.Dns.WordSets.{is_prefix, is_infix, substr_match, erase_holding, substr_insert}
use cdns.Prelude.{leb, Bytes, length, ◌≤◌, ◌≡◌, refl, true, ◌&&◌, ◌||◌, List, [], ◌∷◌, arith}

pub is_prefix_trans :
    (s t u : Bytes) → is_prefix s t ≡ true → is_prefix t u ≡ true → is_prefix s u ≡ true
unfolding is_prefix
is_prefix_trans [] t u h k = refl
is_prefix_trans (c ∷ s) [] u h k = cc
is_prefix_trans (c ∷ s) (d ∷ t) [] h k = cc
is_prefix_trans (c ∷ s) (d ∷ t) (e ∷ u) h k = ground (arith, is_prefix_trans s t u)

length-is_prefix : (s t : Bytes) → is_prefix s t ≡ true → length s ≤ length t
unfolding is_prefix
length-is_prefix [] t h = omega arith
length-is_prefix (c ∷ s) [] h = cc
length-is_prefix (c ∷ s) (d ∷ t) h = ground (arith, length-is_prefix s t)

length-is_infix : (s t : Bytes) → is_infix s t ≡ true → length s ≤ length t
unfolding is_infix
length-is_infix s [] h = length-is_prefix s [] h
length-is_infix s (c ∷ t) h = ground (arith, length-is_prefix s (c ∷ t), length-is_infix s t)

-- An infix of a prefix.
is_infix-is_prefix :
    (s t u : Bytes) → is_infix s t ≡ true → is_prefix t u ≡ true → is_infix s u ≡ true
unfolding is_infix is_prefix
is_infix-is_prefix [] [] [] h k = refl
is_infix-is_prefix [] [] (e ∷ u) h k = refl
is_infix-is_prefix (c ∷ s) [] u h k = cc
is_infix-is_prefix s (d ∷ t) [] h k = cc
is_infix-is_prefix s (d ∷ t) (e ∷ u) h k =
    ground (arith, is_prefix_trans s (d ∷ t) (e ∷ u), is_infix-is_prefix s t u)

pub is_infix_trans :
    (s t u : Bytes) → is_infix s t ≡ true → is_infix t u ≡ true → is_infix s u ≡ true
unfolding is_infix
is_infix_trans s t [] h k = is_infix-is_prefix s t [] h k
is_infix_trans s t (e ∷ u) h k =
    ground (arith, is_infix-is_prefix s t (e ∷ u), is_infix_trans s t u)

-- A text that holds an element of the set.
pub holds_iff : (s str : Bytes) → (leb (length s) (length str) && is_infix s str) ≡ is_infix s str
holds_iff s str = ground (arith, length-is_infix s str)

erase_holding-match :
    (w str : Bytes) (subs : List Bytes)
    → (is_infix w str || substr_match (erase_holding w subs) str)
      ≡ (is_infix w str || substr_match subs str)
unfolding erase_holding substr_match
erase_holding-match w str [] = refl
erase_holding-match w str (s ∷ subs) =
    ground (arith, erase_holding-match w str subs, is_infix_trans w s str, holds_iff s str)

-- After an insertion the set matches a text exactly when it did before or the text holds the new
-- element, although elements that hold another one are not kept.
pub substr_match-substr_insert :
    (subs : List Bytes) (w str : Bytes)
    → substr_match (substr_insert subs w) str ≡ (is_infix w str || substr_match subs str)
unfolding substr_match substr_insert
substr_match-substr_insert [] w str = ground (arith, holds_iff w str)
substr_match-substr_insert (s ∷ subs) w str = ground (
  arith,
  holds_iff w str,
  holds_iff s str,
  is_infix_trans s w str,
  is_infix_trans w s str,
  erase_holding-match w str subs,
  substr_match-substr_insert subs w str,
)

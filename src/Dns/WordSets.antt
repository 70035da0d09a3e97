-- ===== src/Dns/WordSets.antt =====
-- dns/srcz/filter.cpp, `namespace detail`, and dns/filter.hxx, `comp` and `rev_comp`: the sets of
-- words. A set that is sorted by the reversed words has the reversed word as the key of each.
pub mod Substrings
pub mod Order
pub mod Sorted
pub mod Inserted
use mathlib.Core.List.{reverse}
use cdns.Prelude.{
  ltb, leb, ◌==◌, if◌then◌else◌, Bytes, length, Bool, true, false, ◌&&◌, ◌||◌, Option, none, some,
  List, [], ◌∷◌,
}

-- The key of `comp`, and of `rev_comp`.
abbrev pub prefix_key : Bytes → Bytes
prefix_key w = w

abbrev pub suffix_key : Bytes → Bytes
suffix_key w = reverse w

-- `std::lexicographical_compare`
unfoldable pub lex_less : Bytes → Bytes → Bool
lex_less s [] = false
lex_less [] (d ∷ t) = true
lex_less (c ∷ s) (d ∷ t) =
    let rest = lex_less s t in if ltb c d then true else if ltb d c then false else rest

-- `0 == longer.compare (0, shorter.length(), shorter)`, the shorter text given first.
unfoldable pub is_prefix : Bytes → Bytes → Bool
is_prefix [] t = true
is_prefix (c ∷ s) [] = false
is_prefix (c ∷ s) (d ∷ t) = (c == d) && is_prefix s t

-- `std::string::npos != str.find (s)`, the text that is looked for given first.
unfoldable pub is_infix : Bytes → Bytes → Bool
is_infix s [] = is_prefix s []
is_infix s (c ∷ t) = is_prefix s (c ∷ t) || is_infix s t

unfoldable pub substr_match : List Bytes → Bytes → Bool
substr_match [] str = false
substr_match (s ∷ subs) str =
    (leb (length s) (length str) && is_infix s str) || substr_match subs str

-- The inner loop of `substr_insert`: without the elements that hold `w`.
unfoldable pub erase_holding : Bytes → List Bytes → List Bytes
erase_holding w [] = []
erase_holding w (s ∷ subs) =
    let rest = erase_holding w subs in if is_infix w s then rest else s ∷ rest

unfoldable pub substr_insert : List Bytes → Bytes → List Bytes
substr_insert [] w = w ∷ []
substr_insert (s ∷ subs) w =
    let rest = substr_insert subs w in
    if is_infix s w then s ∷ subs else if is_infix w s then w ∷ erase_holding w subs else s ∷ rest

-- `contains <Cmp> (longer, shorter)`
abbrev pub contains : (Bytes → Bytes) → Bytes → Bytes → Bool
contains key longer shorter = is_prefix (key shorter) (key longer)

-- `std::prev (words.upper_bound (str))`, unless that is the begin.
unfoldable pub before_upper : (Bytes → Bytes) → List Bytes → Bytes → Option Bytes
before_upper key [] str = none
before_upper key (w ∷ words) str =
    let rest = before_upper key words str in
    if lex_less (key str) (key w) then none else elim rest [ none ↦ some w | some v ↦ some v ]

unfoldable pub words_match : (Bytes → Bytes) → List Bytes → Bytes → Bool
words_match key words str = elim (before_upper key words str) [
  | none ↦ false
  | some w ↦ contains key str w
]

-- The loop of `words_insert` over the elements behind the inserted one.
unfoldable pub erase_contained : (Bytes → Bytes) → Bytes → List Bytes → List Bytes
erase_contained key w [] = []
erase_contained key w (v ∷ words) =
    let rest = erase_contained key w words in if contains key v w then rest else v ∷ words

-- `contains <Cmp> (w, *std::prev (i.first))`, if there is one in front.
unfoldable pub covered : (Bytes → Bytes) → Option Bytes → Bytes → Bool
covered key none w = false
covered key (some p) w = contains key w p

-- `words_insert`, behind an element of the set if there is one.
unfoldable pub insert_behind : (Bytes → Bytes) → Option Bytes → List Bytes → Bytes → List Bytes
insert_behind key previous [] w = if covered key previous w then [] else w ∷ []
insert_behind key previous (v ∷ words) w =
    let rest = insert_behind key (some v) words w in
    if lex_less (key v) (key w)
    then v ∷ rest
    else if lex_less (key w) (key v)
    then (if covered key previous w then v ∷ words else w ∷ erase_contained key w (v ∷ words))
    else v ∷ words

abbrev pub words_insert : (Bytes → Bytes) → List Bytes → Bytes → List Bytes
words_insert key words w = insert_behind key none words w

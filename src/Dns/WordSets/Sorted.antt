-- ===== src/Dns/WordSets/Sorted.antt =====
-- A sorted set in which no word contains another.
use cdns.Dns.WordSets.{lex_less, contains, before_upper, words_match}
use cdns.Dns.WordSets.Order.{lex_less_trans, lex_less_asym, prefix_below, prefix_between}
use cdns.Prelude.{
  Bool-cases, Option-cases, Bytes, All, ◌≡◌, refl, subst, inl, inr, Bool, true, false, ◌||◌, none,
  some, List, [], ◌∷◌, arith,
}

module _ (key : Bytes → Bytes) where
  -- The word stands in front of the other and is not contained in it.
  abbrev pub Apart : Bytes → Bytes → Type 0
  Apart w v = (lex_less (key w) (key v) ≡ true) × (contains key v w ≡ false)

  unfoldable pub IsWordSet : List Bytes → Type 0
  IsWordSet [] = Unit {0}
  IsWordSet (w ∷ ws) = All (Apart w) ws × IsWordSet ws

  -- Some word of the set is contained in the text.
  unfoldable pub any_contained : List Bytes → Bytes → Bool
  any_contained [] str = false
  any_contained (w ∷ ws) str = contains key str w || any_contained ws str

  -- No word above the text is contained in it.
  above_none :
      (w str : Bytes) (ws : List Bytes)
      → lex_less (key str) (key w) ≡ true
      → All (Apart w) ws
      → any_contained ws str ≡ false
  unfolding any_contained
  above_none w str [] h a = refl
  above_none w str (v ∷ ws) h a =
      let lt = lex_less_trans (key str) (key w) (key v) h a.0.0 in
      ground (arith, above_none w str ws h a.1, prefix_below (key v) (key str))

  -- What `before_upper` finds.
  before_upper-All :
      (P : Bytes → Type 0) (ws : List Bytes) (str : Bytes) {v : Bytes}
      → before_upper key ws str ≡ some v
      → All P ws
      → P v × (lex_less (key str) (key v) ≡ false)
  unfolding before_upper
  before_upper-All P [] str h a = absurd (cc (h))
  before_upper-All P (w ∷ ws) str {v} h a = elim (Bool-cases (lex_less (key str) (key w))) [
    | inl below ↦ absurd (none_some (rw below at h))
    | inr above ↦ elim (Option-cases (before_upper key ws str)) [
      | inl last ↦
          let same : w ≡ v = some_same (rw (above, last) at h) in
          subst (λ x. P x × (lex_less (key str) (key x) ≡ false)) same (a.0, above)
      | inr (u, found) ↦
          let same : u ≡ v = some_same (rw (above, found) at h) in
          subst (λ x. P x × (lex_less (key str) (key x) ≡ false)) same
            (before_upper-All P ws str found a.1)
    ]
  ]
    where
      none_some : none ≡ some v → ⊥
      none_some e = cc

      some_same : {x : Bytes} → some x ≡ some v → x ≡ v
      some_same e = cc (e)

  -- In a set that is sorted and holds no word that contains another, looking at the one word that
  -- stands last below the text finds whether any word of the set is contained in the text.
  pub words_match-any_contained :
      (ws : List Bytes) (str : Bytes) → IsWordSet ws → words_match key ws str ≡ any_contained ws str
  unfolding words_match before_upper any_contained IsWordSet
  words_match-any_contained [] str v = refl
  words_match-any_contained (w ∷ ws) str v =
      let ih = words_match-any_contained ws str v.1 in
      elim (Bool-cases (lex_less (key str) (key w))) [
        | inl below ↦
            let rest = above_none w str ws below v.0 in
            rw (words_match, before_upper, below) (ground (arith, prefix_below (key w) (key str)))
        | inr above ↦ elim (Option-cases (before_upper key ws str)) [
          | inl last ↦
              let ih' = rw (words_match, last) at ih in
              rw (words_match, before_upper, above, last) (ground arith)
          | inr (u, found) ↦
              let (apart, le) = before_upper-All (Apart w) ws str found v.0 in
              let ih' = rw (words_match, found) at ih in
              rw (words_match, before_upper, above, found)
                (ground
                  (arith, prefix_between (key w) (key u) (key str), lex_less_asym (key w) (key u)))
        ]
      ]

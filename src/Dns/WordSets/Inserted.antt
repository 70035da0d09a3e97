-- ===== src/Dns/WordSets/Inserted.antt =====
-- What an insertion in a sorted set leaves.
use cdns.Dns.WordSets.{
  lex_less, is_prefix, contains, words_match, erase_contained, covered, insert_behind, words_insert,
}
use cdns.Dns.WordSets.Order.{lex_less_trans, lex_less_antisym, lex_less_asym, prefix_between}
use cdns.Dns.WordSets.Sorted.{Apart, IsWordSet, any_contained, words_match-any_contained}
use cdns.Dns.WordSets.Substrings.{is_prefix_trans}
use cdns.Prelude.{
  Bool-cases, Bytes, All, ◌≡◌, refl, sym, ap, ◌∙◌, subst, ◌⊎◌, inl, inr, true, false, ◌||◌, Option,
  none, some, List, [], ◌∷◌, arith,
}

module _ (key : Bytes → Bytes) where
  erase_contained-All :
      (P : Bytes → Type 0) (w : Bytes) (ws : List Bytes)
      → All P ws
      → All P (erase_contained key w ws)
  unfolding erase_contained
  erase_contained-All P w [] a = tt
  erase_contained-All P w (v ∷ ws) a = elim (Bool-cases (contains key v w)) [
    | inl gone ↦ rw gone (erase_contained-All P w ws a.1)
    | inr stays ↦ rw stays a
  ]

  erase_contained-any :
      (w str : Bytes) (ws : List Bytes)
      → (contains key str w || any_contained key (erase_contained key w ws) str)
        ≡ (contains key str w || any_contained key ws str)
  unfolding erase_contained any_contained
  erase_contained-any w str [] = refl
  erase_contained-any w str (v ∷ ws) =
      ground (arith, erase_contained-any w str ws, is_prefix_trans (key w) (key v) (key str))

  covered_trans :
      (previous : Option Bytes) (w str : Bytes)
      → covered key previous w ≡ true
      → contains key str w ≡ true
      → covered key previous str ≡ true
  unfolding covered
  covered_trans none w str h k = cc
  covered_trans (some p) w str h k = is_prefix_trans (key p) (key w) (key str) h k

  insert_behind-any :
      (previous : Option Bytes) (ws : List Bytes) (w str : Bytes)
      → (covered key previous str || any_contained key (insert_behind key previous ws w) str)
        ≡ (covered key previous str || (contains key str w || any_contained key ws str))
  unfolding insert_behind any_contained
  insert_behind-any previous [] w str = ground (arith, covered_trans previous w str)
  insert_behind-any previous (v ∷ ws) w str = elim (Bool-cases (lex_less (key v) (key w))) [
    | inl behind ↦
        let ih = insert_behind-any (some v) ws w str in
        let same : covered key (some v) str ≡ contains key str v = unfold covered in refl in
        rw (insert_behind, behind) (ground arith)
    | inr front ↦ elim (Bool-cases (lex_less (key w) (key v))) [
      | inl here ↦
          rw (insert_behind, front, here)
            (ground (arith, covered_trans previous w str, erase_contained-any w str (v ∷ ws)))
      | inr equal_key ↦
          let same = lex_less_antisym (key v) (key w) front equal_key in
          let as_well : contains key str v ≡ contains key str w =
            ap (λ k. is_prefix k (key str)) same in
          rw (insert_behind, front, equal_key) (ground arith)
    ]
  ]

  Apart-next :
      (q p w : Bytes)
      → (q ≡ p) ⊎ Apart key q p
      → lex_less (key p) (key w) ≡ true
      → contains key w p ≡ false
      → Apart key q w
  Apart-next q p w (inl e) pw out = subst (λ x. Apart key x w) (sym e) (pw, out)
  Apart-next q p w (inr a) pw out = (
    lex_less_trans (key q) (key p) (key w) a.0 pw,
    ground (
      arith,
      prefix_between (key q) (key p) (key w),
      lex_less_asym (key q) (key p),
      lex_less_asym (key p) (key w),
    ),
  )

  -- Behind `q` all words stand apart from it, the inserted one too.
  insert_behind-Apart :
      (q p : Bytes) (ws : List Bytes) (w : Bytes)
      → (q ≡ p) ⊎ Apart key q p
      → lex_less (key p) (key w) ≡ true
      → All (Apart key q) ws
      → All (Apart key q) (insert_behind key (some p) ws w)
  unfolding insert_behind covered
  insert_behind-Apart q p [] w qp pw aq = elim (Bool-cases (contains key w p)) [
    | inl in_p ↦ rw in_p tt
    | inr out ↦ rw out (Apart-next q p w qp pw out, tt)
  ]
  insert_behind-Apart q p (v ∷ ws) w qp pw aq = elim (Bool-cases (lex_less (key v) (key w))) [
    | inl behind ↦ rw behind (aq.0, insert_behind-Apart q v ws w (inr aq.0) behind aq.1)
    | inr front ↦ elim (Bool-cases (lex_less (key w) (key v))) [
      | inr equal_key ↦ rw (front, equal_key) aq
      | inl here ↦ elim (Bool-cases (contains key w p)) [
        | inl in_p ↦ rw (front, here, in_p) aq
        | inr out ↦
            rw (front, here, out)
              (Apart-next q p w qp pw out, erase_contained-All (Apart key q) w (v ∷ ws) aq)
      ]
    ]
  ]

  Apart-later :
      (w v : Bytes) (ws : List Bytes) → Apart key w v → All (Apart key v) ws → All (Apart key w) ws
  Apart-later w v [] a later = tt
  Apart-later w v (x ∷ ws) a later =
      (Apart-next w v x (inr a) later.0.0 later.0.1, Apart-later w v ws a later.1)

  -- What is left behind the inserted word.
  erase_contained-IsWordSet :
      (w : Bytes) (ws : List Bytes)
      → All (λ v. lex_less (key w) (key v) ≡ true) ws
      → IsWordSet key ws
      → IsWordSet key (w ∷ erase_contained key w ws)
  unfolding erase_contained IsWordSet
  erase_contained-IsWordSet w [] lt set = (tt, tt)
  erase_contained-IsWordSet w (v ∷ ws) lt set = elim (Bool-cases (contains key v w)) [
    | inl gone ↦ rw gone (erase_contained-IsWordSet w ws lt.1 set.1)
    | inr stays ↦ rw stays (((lt.0, stays), Apart-later w v ws (lt.0, stays) set.0), set)
  ]

  All-less :
      (w v : Bytes) (ws : List Bytes)
      → lex_less (key w) (key v) ≡ true
      → All (Apart key v) ws
      → All (λ x. lex_less (key w) (key x) ≡ true) ws
  All-less w v [] lt a = tt
  All-less w v (x ∷ ws) lt a =
      (lex_less_trans (key w) (key v) (key x) lt a.0.0, All-less w v ws lt a.1)

  pub insert_behind-IsWordSet :
      (previous : Option Bytes) (ws : List Bytes) (w : Bytes)
      → IsWordSet key ws
      → IsWordSet key (insert_behind key previous ws w)
  unfolding insert_behind IsWordSet
  insert_behind-IsWordSet previous [] w set = elim (Bool-cases (covered key previous w)) [
    | inl in_p ↦ rw in_p tt
    | inr out ↦ rw out (tt, tt)
  ]
  insert_behind-IsWordSet previous (v ∷ ws) w set = elim (Bool-cases (lex_less (key v) (key w))) [
    | inl behind ↦ rw behind (
      insert_behind-Apart v v ws w (inl refl) behind set.0,
      insert_behind-IsWordSet (some v) ws w set.1,
    )
    | inr front ↦ elim (Bool-cases (lex_less (key w) (key v))) [
      | inr equal_key ↦ rw (front, equal_key) set
      | inl here ↦ elim (Bool-cases (covered key previous w)) [
        | inl in_p ↦ rw (front, here, in_p) set
        | inr out ↦
            rw (front, here, out)
              (erase_contained-IsWordSet w (v ∷ ws) (here, All-less w v ws here set.0) set)
      ]
    ]
  ]

  -- In a set that is sorted and holds no word that contains another, an insertion leaves such a
  -- set, which matches a text exactly when it did before or the text contains the new word.
  pub words_insert_lem :
      (ws : List Bytes) (w str : Bytes)
      → IsWordSet key ws
      → IsWordSet key (words_insert key ws w)
        × (words_match key (words_insert key ws w) str
            ≡ (contains key str w || words_match key ws str))
  unfolding covered
  words_insert_lem ws w str set =
      let after = insert_behind-IsWordSet none ws w set in
      let any = insert_behind-any none ws w str in
      let old = words_match-any_contained key ws str set in
      (
        after,
        words_match-any_contained key (insert_behind key none ws w) str after
            ∙ any
            ∙ ap (λ b. contains key str w || b) (sym old),
      )

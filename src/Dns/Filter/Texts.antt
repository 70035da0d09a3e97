-- ===== src/Dns/Filter/Texts.antt =====
-- Texts with dots at their ends, in one another.
use mathlib.Core.List.{reverse, reverse-append, reverse-reverse}
use cdns.Dns.Filter.{back_is, with_front_dot, with_back_dot}
use cdns.Dns.WordSets.{suffix_key, is_prefix, is_infix, substr_match, contains}
use cdns.Dns.WordSets.Substrings.{is_infix_trans, holds_iff}
use cdns.Prelude.{
  ◌==◌, Bool-cases, Bytes, ℕ, ◌≡◌, refl, sym, ap, ◌∙◌, inl, inr, true, List, [], ◌∷◌, ◌++◌,
  append-nil, append_assoc, arith,
}
use cdns.Sys.Text.{front_is}

is_prefix-append : (s t : Bytes) → is_prefix s t ≡ true → (r : Bytes) × (t ≡ s ++ r)
unfolding is_prefix
is_prefix-append [] t h = (t, refl)
is_prefix-append (c ∷ s) [] h = absurd (cc (h))
is_prefix-append (c ∷ s) (d ∷ t) h =
    let head : c ≡ d = ground arith in
    let (r, e) = is_prefix-append s t (ground arith) in (r, cc (head, e))

prefix_append : (s b : Bytes) → is_prefix s (s ++ b) ≡ true
unfolding is_prefix
prefix_append [] b = refl
prefix_append (c ∷ s) b = ground (arith, prefix_append s b)

pub infix-is_prefix : (s t : Bytes) → is_prefix s t ≡ true → is_infix s t ≡ true
unfolding is_infix
infix-is_prefix s [] h = h
infix-is_prefix s (c ∷ t) h = ground arith

infix_middle : (a s b : Bytes) → is_infix s (a ++ (s ++ b)) ≡ true
unfolding is_infix
infix_middle [] s b = infix-is_prefix s (s ++ b) (prefix_append s b)
infix_middle (c ∷ a) s b = ground (arith, infix_middle a s b)

infix_end : (a s : Bytes) → is_infix s (a ++ s) ≡ true
infix_end a s = ap (λ t. is_infix s (a ++ t)) (sym (append-nil s)) ∙ infix_middle a s []

-- A text that ends with the word.
suffix-append : (d t : Bytes) → contains suffix_key t d ≡ true → (x : Bytes) × (t ≡ x ++ d)
suffix-append d t h =
    let (r, e) = is_prefix-append (reverse d) (reverse t) h in
    (
      reverse r,
      sym (reverse-reverse t)
          ∙ ap reverse e
          ∙ reverse-append (reverse d) r
          ∙ ap (λ y. reverse r ++ y) (reverse-reverse d),
    )

back_is-append :
    (ch : ℕ) (x : Bytes) (c : ℕ) (d : Bytes) → back_is ch (x ++ c ∷ d) ≡ back_is ch (c ∷ d)
unfolding back_is
back_is-append ch [] c d = refl
back_is-append ch (e ∷ []) c d = refl
back_is-append ch (e ∷ f ∷ x) c d = back_is-append ch (f ∷ x) c d

back_is-end : (s : Bytes) → back_is b'.' s ≡ true → (z : Bytes) × (s ≡ z ++ b'.' ∷ [])
unfolding back_is
back_is-end [] h = absurd (cc (h))
back_is-end (c ∷ []) h = ([], ground arith)
back_is-end (c ∷ d ∷ s) h = let (z, e) = back_is-end (d ∷ s) h in (c ∷ z, ap (◌∷◌ c) e)

-- A word at the end of a text, both closed by a dot.
pub infix-with_back_dot :
    (d t : Bytes)
    → contains suffix_key t d ≡ true
    → is_infix (with_back_dot d) (with_back_dot t) ≡ true
infix-with_back_dot [] t h = elim (Bool-cases (back_is b'.' t)) [
  | inl dot ↦
      let (z, e) = back_is-end t dot in
      let none_back : with_back_dot [] ≡ b'.' ∷ [] = unfold back_is in refl in
      rw (none_back, dot, e) (infix_end z (b'.' ∷ []))
  | inr other ↦
      let none_back : with_back_dot [] ≡ b'.' ∷ [] = unfold back_is in refl in
      rw (none_back, other) (infix_end t (b'.' ∷ []))
]
infix-with_back_dot (c ∷ d) t h =
    let (x, e) = suffix-append (c ∷ d) t h in
    let same : back_is b'.' t ≡ back_is b'.' (c ∷ d) =
      ap (back_is b'.') e ∙ back_is-append b'.' x c d in
    elim (Bool-cases (back_is b'.' (c ∷ d))) [
      | inl dot ↦ rw (same, dot, e) (infix_end x (c ∷ d))
      | inr other ↦
          rw (same, other, e, append_assoc x (c ∷ d) (b'.' ∷ []))
            (infix_end x ((c ∷ d) ++ b'.' ∷ []))
    ]

front-dot : (s : Bytes) → (t : Bytes) × (with_front_dot s ≡ b'.' ∷ t)
front-dot [] = ([], refl)
front-dot (c ∷ s) = elim (Bool-cases (c == b'.')) [
  | inl dot ↦ (s, rw dot (ground arith))
  | inr other ↦ (c ∷ s, rw other refl)
]

back-dot : (c : ℕ) (t : Bytes) → (u : Bytes) × (with_back_dot (c ∷ t) ≡ c ∷ u)
back-dot c t = elim (Bool-cases (back_is b'.' (c ∷ t))) [
  | inl dot ↦ (t, rw dot refl)
  | inr other ↦ (t ++ b'.' ∷ [], rw other refl)
]

-- A name with dots at both ends.
pub closed_form : (s : Bytes) → (u : Bytes) × (with_back_dot (with_front_dot s) ≡ b'.' ∷ u)
closed_form s =
    let (t, e) = front-dot s in let (u, e') = back-dot b'.' t in (u, ap with_back_dot e ∙ e')

pub infix-with_front_dot :
    (d u : Bytes) → is_prefix d u ≡ true → is_infix (with_front_dot d) (b'.' ∷ u) ≡ true
infix-with_front_dot d u h = elim (Bool-cases (front_is b'.' d)) [
  | inl dot ↦ rw dot (unfold is_infix in (ground (arith, infix-is_prefix d u)))
  | inr other ↦ rw other (infix-is_prefix (b'.' ∷ d) (b'.' ∷ u) (unfold is_prefix in h))
]

-- A text that holds a text that is matched.
pub substr_match-infix :
    (subs : List Bytes) (t u : Bytes)
    → is_infix t u ≡ true
    → substr_match subs t ≡ true
    → substr_match subs u ≡ true
unfolding substr_match
substr_match-infix [] t u h k = k
substr_match-infix (s ∷ subs) t u h k =
    ground (arith, holds_iff s t, holds_iff s u, is_infix_trans s t u, substr_match-infix subs t u)

-- ===== src/Dns/WordSets/Order.antt =====
-- The order of texts, and prefixes in it.
use cdns.Dns.WordSets.{lex_less, is_prefix}
use cdns.Prelude.{Bytes, ◌≡◌, refl, true, false, [], ◌∷◌, arith}

pub lex_less_trans :
    (s t u : Bytes) → lex_less s t ≡ true → lex_less t u ≡ true → lex_less s u ≡ true
unfolding lex_less
lex_less_trans s [] u h k = cc
lex_less_trans s (d ∷ t) [] h k = cc
lex_less_trans [] (d ∷ t) (e ∷ u) h k = refl
lex_less_trans (c ∷ s) (d ∷ t) (e ∷ u) h k = ground (arith, lex_less_trans s t u)

pub lex_less_antisym : (s t : Bytes) → lex_less s t ≡ false → lex_less t s ≡ false → s ≡ t
unfolding lex_less
lex_less_antisym [] [] h k = refl
lex_less_antisym [] (d ∷ t) h k = cc
lex_less_antisym (c ∷ s) [] h k = cc
lex_less_antisym (c ∷ s) (d ∷ t) h k = ground (arith, lex_less_antisym s t)

pub lex_less_asym : (s t : Bytes) → lex_less s t ≡ true → lex_less t s ≡ false
unfolding lex_less
lex_less_asym s [] h = cc
lex_less_asym [] (d ∷ t) h = refl
lex_less_asym (c ∷ s) (d ∷ t) h = ground (arith, lex_less_asym s t)

-- A text is not less than a prefix of it.
pub prefix_below : (p s : Bytes) → is_prefix p s ≡ true → lex_less s p ≡ false
unfolding lex_less is_prefix
prefix_below [] s h = refl
prefix_below (c ∷ p) [] h = cc
prefix_below (c ∷ p) (d ∷ s) h = ground (arith, prefix_below p s)

-- A prefix of a text is a prefix of every text between the two.
pub prefix_between :
    (p w s : Bytes)
    → is_prefix p s ≡ true
    → lex_less w p ≡ false
    → lex_less s w ≡ false
    → is_prefix p w ≡ true
unfolding lex_less is_prefix
prefix_between [] w s h below above = refl
prefix_between (c ∷ p) w [] h below above = cc
prefix_between (c ∷ p) [] (e ∷ s) h below above = cc
prefix_between (c ∷ p) (d ∷ w) (e ∷ s) h below above = ground (arith, prefix_between p w s)

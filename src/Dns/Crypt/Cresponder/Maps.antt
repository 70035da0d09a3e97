-- ===== src/Dns/Crypt/Cresponder/Maps.antt =====
-- Maps of servers: what is found after an entry is put, erased or kept.
use cdns.Dns.Crypt.Certifier.{Certifier}
use cdns.Dns.Crypt.Cresponder.{find_crypt_provider}
use cdns.Dns.Crypt.Cresponder.Choosing.{IsKeyed, bytes_eq-ne}
use cdns.Dns.Crypt.Cresponder.Load.{put_provider, erase_provider, keep_providers}
use cdns.Dns.WordSets.{lex_less}
use cdns.Prelude.{
  if◌then◌else◌, Bool-cases, Bytes, bytes_eq, bytes_eq_iff, length, All, All-map, ◌<◌, ◌≡◌, refl,
  sym, ap, ◌∙◌, subst, ◌≢◌, ◌⊎◌, inl, inr, Bool, true, false, not, none, some, List, [], ◌∷◌,
}

-- What is found at the head of a map.
pub find-head :
    (key k : Bytes) (c : Certifier) (ps : List (Bytes × Certifier))
    → ((key ≡ k) × (find_crypt_provider k ((key, c) ∷ ps) ≡ some c))
      ⊎ ((key ≢ k) × (find_crypt_provider k ((key, c) ∷ ps) ≡ find_crypt_provider k ps))
unfolding find_crypt_provider
find-head key k c ps = elim (Bool-cases (bytes_eq key k)) [
  | inl same ↦ inl ((bytes_eq_iff key k).0 same, rw (find_crypt_provider, same) refl)
  | inr other ↦
      inr (λ e. let g = (bytes_eq_iff key k).1 e in cc, rw (find_crypt_provider, other) refl)
]

find-cons_cong :
    (k j : Bytes) (d : Certifier) (ps qs : List (Bytes × Certifier))
    → find_crypt_provider k ps ≡ find_crypt_provider k qs
    → find_crypt_provider k ((j, d) ∷ ps) ≡ find_crypt_provider k ((j, d) ∷ qs)
unfolding find_crypt_provider
find-cons_cong k j d ps qs e = ap (λ o. if bytes_eq j k then some d else o) e

pub find-none-All :
    (key : Bytes) (ps : List (Bytes × Certifier))
    → find_crypt_provider key ps ≡ none
    → All (λ e. e.0 ≢ key) ps
find-none-All key [] h = tt
find-none-All key ((k, d) ∷ ps) h = elim (find-head k key d ps) [
  | inl (same, e) ↦ cc
  | inr (other, e) ↦ (other, find-none-All key ps (sym e ∙ h))
]

pub All-find-none :
    (key : Bytes) (ps : List (Bytes × Certifier))
    → All (λ e. e.0 ≢ key) ps
    → find_crypt_provider key ps ≡ none
unfolding find_crypt_provider
All-find-none key [] h = refl
All-find-none key ((k, d) ∷ ps) h = elim (find-head k key d ps) [
  | inl (same, e) ↦ absurd (h.0 same)
  | inr (other, e) ↦ e ∙ All-find-none key ps h.1
]

put_provider-cons :
    (key : Bytes) (c : Certifier) (k : Bytes) (d : Certifier) (ps : List (Bytes × Certifier))
    → (put_provider key c ((k, d) ∷ ps) ≡ (key, c) ∷ (k, d) ∷ ps)
      ⊎ (put_provider key c ((k, d) ∷ ps) ≡ (k, d) ∷ put_provider key c ps)
unfolding put_provider
put_provider-cons key c k d ps = elim (Bool-cases (lex_less key k)) [
  | inl front ↦ inl (rw (put_provider, front) refl)
  | inr behind ↦ inr (rw (put_provider, behind) refl)
]

module _ (key : Bytes) (c : Certifier) where
  -- A new key is found.
  pub find-put_provider :
      (ps : List (Bytes × Certifier))
      → All (λ e. e.0 ≢ key) ps
      → find_crypt_provider key (put_provider key c ps) ≡ some c
  unfolding put_provider
  find-put_provider [] h = elim (find-head key key c []) [
    | inl (same, e) ↦ e
    | inr (other, e) ↦ absurd (other refl)
  ]
  find-put_provider ((k, d) ∷ ps) h = elim (put_provider-cons key c k d ps) [
    | inl front ↦ elim (find-head key key c ((k, d) ∷ ps)) [
      | inl (same, e) ↦ ap (find_crypt_provider key) front ∙ e
      | inr (other, e) ↦ absurd (other refl)
    ]
    | inr behind ↦ elim (find-head k key d (put_provider key c ps)) [
      | inl (same, e) ↦ absurd (h.0 same)
      | inr (other, e) ↦ ap (find_crypt_provider key) behind ∙ e ∙ find-put_provider ps h.1
    ]
  ]

  -- The other keys lead to what they led to.
  pub find-put_provider_other :
      (k : Bytes) (ps : List (Bytes × Certifier))
      → key ≢ k
      → find_crypt_provider k (put_provider key c ps) ≡ find_crypt_provider k ps
  unfolding put_provider
  find-put_provider_other k [] h = elim (find-head key k c []) [
    | inl (same, e) ↦ absurd (h same)
    | inr (other, e) ↦ e
  ]
  find-put_provider_other k ((j, d) ∷ ps) h = elim (put_provider-cons key c j d ps) [
    | inl front ↦ elim (find-head key k c ((j, d) ∷ ps)) [
      | inl (same, e) ↦ absurd (h same)
      | inr (other, e) ↦ ap (find_crypt_provider k) front ∙ e
    ]
    | inr behind ↦
        ap (find_crypt_provider k) behind
        ∙ find-cons_cong k j d _ _ (find-put_provider_other k ps h)
  ]

  put_provider-All :
      (P : Bytes → Type 0) (ps : List (Bytes × Certifier))
      → P key
      → All (λ e. P e.0) ps
      → All (λ e. P e.0) (put_provider key c ps)
  unfolding put_provider
  put_provider-All P [] h hs = (h, tt)
  put_provider-All P ((k, d) ∷ ps) h hs = elim (put_provider-cons key c k d ps) [
    | inl front ↦ subst (All (λ e. P e.0)) (sym front) (h, (hs.0, hs.1))
    | inr behind ↦ subst (All (λ e. P e.0)) (sym behind) (hs.0, put_provider-All P ps h hs.1)
  ]

  pub put_provider-IsKeyed :
      (ps : List (Bytes × Certifier))
      → All (λ e. e.0 ≢ key) ps
      → 0 < length key
      → IsKeyed ps
      → IsKeyed (put_provider key c ps)
  unfolding put_provider
  put_provider-IsKeyed [] h long v = (tt, long, tt)
  put_provider-IsKeyed ((k, d) ∷ ps) h long v = elim (put_provider-cons key c k d ps) [
    | inl front ↦ subst IsKeyed (sym front) (h, long, v)
    | inr behind ↦ subst IsKeyed (sym behind) (
      put_provider-All (λ x. x ≢ k) ps (λ e. h.0 (sym e)) v.0,
      v.1,
      put_provider-IsKeyed ps h.1 long v.2,
    )
  ]

pub keep_providers-cons :
    (test : Bytes → Bool) (k : Bytes) (d : Certifier) (ps : List (Bytes × Certifier))
    → ((test k ≡ true) × (keep_providers test ((k, d) ∷ ps) ≡ (k, d) ∷ keep_providers test ps))
      ⊎ ((test k ≡ false) × (keep_providers test ((k, d) ∷ ps) ≡ keep_providers test ps))
unfolding keep_providers
keep_providers-cons test k d ps = elim (Bool-cases (test k)) [
  | inl kept ↦ inl (kept, rw (keep_providers, kept) refl)
  | inr dropped ↦ inr (dropped, rw (keep_providers, dropped) refl)
]

module _ (test : Bytes → Bool) where
  keep_providers-All :
      (P : Bytes → Type 0) (ps : List (Bytes × Certifier))
      → All (λ e. P e.0) ps
      → All (λ e. P e.0) (keep_providers test ps)
  unfolding keep_providers
  keep_providers-All P [] hs = tt
  keep_providers-All P ((k, d) ∷ ps) hs = elim (keep_providers-cons test k d ps) [
    | inl (t, e) ↦ subst (All (λ e. P e.0)) (sym e) (hs.0, keep_providers-All P ps hs.1)
    | inr (t, e) ↦ subst (All (λ e. P e.0)) (sym e) (keep_providers-All P ps hs.1)
  ]

  pub keep_providers-IsKeyed :
      (ps : List (Bytes × Certifier)) → IsKeyed ps → IsKeyed (keep_providers test ps)
  unfolding keep_providers
  keep_providers-IsKeyed [] v = tt
  keep_providers-IsKeyed ((k, d) ∷ ps) v = elim (keep_providers-cons test k d ps) [
    | inl (t, e) ↦
        subst IsKeyed (sym e)
          (keep_providers-All (λ x. x ≢ k) ps v.0, v.1, keep_providers-IsKeyed ps v.2)
    | inr (t, e) ↦ subst IsKeyed (sym e) (keep_providers-IsKeyed ps v.2)
  ]

  -- A key that is kept leads to what it led to.
  pub find-keep_providers :
      (k : Bytes) (ps : List (Bytes × Certifier))
      → test k ≡ true
      → find_crypt_provider k (keep_providers test ps) ≡ find_crypt_provider k ps
  unfolding keep_providers
  find-keep_providers k [] t = refl
  find-keep_providers k ((j, d) ∷ ps) t = elim (keep_providers-cons test j d ps) [
    | inl (kept, e) ↦
        ap (find_crypt_provider k) e ∙ find-cons_cong k j d _ _ (find-keep_providers k ps t)
    | inr (dropped, e) ↦ elim (find-head j k d ps) [
      | inl (same, f) ↦ let g : test j ≡ true = ap test same ∙ t in cc
      | inr (other, f) ↦ ap (find_crypt_provider k) e ∙ find-keep_providers k ps t ∙ sym f
    ]
  ]

  -- A key that is not kept leads nowhere.
  pub find-keep_providers-none :
      (k : Bytes) (ps : List (Bytes × Certifier))
      → test k ≡ false
      → find_crypt_provider k (keep_providers test ps) ≡ none
  unfolding keep_providers find_crypt_provider
  find-keep_providers-none k [] t = refl
  find-keep_providers-none k ((j, d) ∷ ps) t = elim (keep_providers-cons test j d ps) [
    | inl (kept, e) ↦ elim (find-head j k d (keep_providers test ps)) [
      | inl (same, f) ↦ let g : test j ≡ false = ap test same ∙ t in cc
      | inr (other, f) ↦ ap (find_crypt_provider k) e ∙ f ∙ find-keep_providers-none k ps t
    ]
    | inr (dropped, e) ↦ ap (find_crypt_provider k) e ∙ find-keep_providers-none k ps t
  ]

keep-All :
    (key : Bytes) (ps : List (Bytes × Certifier))
    → All (λ p. p.0 ≢ key) ps
    → keep_providers (λ k. not (bytes_eq k key)) ps ≡ ps
unfolding keep_providers
keep-All key [] h = refl
keep-All key ((k, d) ∷ ps) h =
    rw (keep_providers, bytes_eq-ne k key h.0) (ap (◌∷◌ (k, d)) (keep-All key ps h.1))

-- `erase_provider` keeps the other keys.
pub erase_provider-keep :
    (key : Bytes) (ps : List (Bytes × Certifier))
    → IsKeyed ps
    → erase_provider key ps ≡ keep_providers (λ k. not (bytes_eq k key)) ps
unfolding erase_provider keep_providers
erase_provider-keep key [] v = refl
erase_provider-keep key ((k, d) ∷ ps) v = elim (Bool-cases (bytes_eq k key)) [
  | inl same ↦
      let e = (bytes_eq_iff k key).0 same in
      rw (erase_provider, keep_providers, same)
        (sym (
          keep-All key ps
            (All-map (λ p. p.0 ≢ k) (λ p. p.0 ≢ key) ps (λ p h g. h (g ∙ sym e)) v.0)))
  | inr other ↦
      rw (erase_provider, keep_providers, other) (ap (◌∷◌ (k, d)) (erase_provider-keep key ps v.2))
]

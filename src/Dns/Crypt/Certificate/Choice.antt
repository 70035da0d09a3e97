-- ===== src/Dns/Crypt/Certificate/Choice.antt =====
-- Which certificate is chosen.
use native.Mathlib.Nat.{le_refl}
use cdns.Dns.Crypt.Certificate.{
  Certificate, undefined, serial_of, is_preferred_over, cipher_of, new_certificate, choose,
  Resolver, BeforeNm, set_resolver_publickey, use_certificate, find_valid_certificate,
}
use cdns.Dns.Crypt.Certificate.Parsed.{new_certificate_lem}
use cdns.Dns.Crypt.Certificate.Preference.{Precedes, preferred_iff, Precedes-trans}
use cdns.Prelude.{
  Bool-cases, Option-cases, Bytes, All, Error, suspicious_key, Result, ok, err, Result-cases, ℕ,
  ◌≡◌, refl, sym, ap, ◌∙◌, subst, ◌≢◌, ◌⊎◌, inl, inr, true, false, Option, none, some, List, [],
  ◌∷◌, arith,
}

module _ (parse : Bytes → Result Certificate) where
  -- The certificate is read from one of the byte strings, or is the one that was kept.
  abbrev pub Comes : Certificate → Option Certificate → List Bytes → Type 0
  Comes c cert [] = cert ≡ some c
  Comes c cert (x ∷ xs) = (parse x ≡ ok c) ⊎ Comes c cert xs

  -- None of the byte strings is a certificate that is not preferred less than `c`.
  abbrev pub NoBetter : Certificate → List Bytes → Type 0
  NoBetter c [] = Unit {0}
  NoBetter c (x ∷ xs) = ((d : Certificate) → parse x ≡ ok d → Precedes d c) × NoBetter c xs

  abbrev pub NoBetter-kept : (c : Certificate) (cert : Option Certificate) → Type 0
  NoBetter-kept c cert = (d : Certificate) → cert ≡ some d → Precedes d c

  Comes-kept :
      (c d : Certificate) (cert : Option Certificate) (xs : List Bytes)
      → Comes c (some d) xs
      → (d ≡ c) ⊎ Comes c cert xs
  Comes-kept c d cert [] h = inl (cc (h))
  Comes-kept c d cert (x ∷ xs) (inl h) = inr (inl h)
  Comes-kept c d cert (x ∷ xs) (inr h) = elim (Comes-kept c d cert xs h) [
    | inl e ↦ inl e
    | inr k ↦ inr (inr k)
  ]

  Comes-next :
      (c d : Certificate) (cert : Option Certificate) (x : Bytes) (xs : List Bytes)
      → parse x ≡ ok d
      → Comes c (some d) xs
      → Comes c cert (x ∷ xs)
  Comes-next c d cert x xs f h = elim (Comes-kept c d cert xs h) [
    | inl e ↦ inl (f ∙ ap ok e)
    | inr k ↦ inr k
  ]

  -- The certificate read from `x` is `d`, and `d` does not go before `c`.
  only :
      (x : Bytes) (d c : Certificate)
      → parse x ≡ ok d
      → Precedes d c
      → (d' : Certificate) → parse x ≡ ok d'
      → Precedes d' c
  only x d c f le d' g = subst (λ y. Precedes y c) (same (sym f ∙ g)) le
    where
      same : ok d ≡ ok d' → d ≡ d'
      same h = cc (h)

  abbrev pub Best : Certificate → Option Certificate → List Bytes → Type 0
  Best c cert xs = Comes c cert xs × NoBetter c xs × NoBetter-kept c cert

  kept-Best : (cert : Option Certificate) (c : Certificate) → cert ≡ some c → Best c cert []
  kept-Best cert c e = (e, tt, λ d h. same (sym h ∙ e))
    where
      same : {d : Certificate} → some d ≡ some c → Precedes d c
      same {d} h =
          let k : d ≡ c = cc (h) in subst (λ y. Precedes d y) k (inr (refl, le_refl (serial_of d)))

  -- One more byte string, by what it is read as.
  skip-Best :
      (cert : Option Certificate) (x : Bytes) (xs : List Bytes) (c : Certificate) {e : Error}
      → parse x ≡ err e
      → Best c cert xs
      → Best c cert (x ∷ xs)
  skip-Best cert x xs c f b = (inr b.0, ((λ d h. absurd (cc (f, h))), b.1), b.2)

  first-Best :
      (x : Bytes) (xs : List Bytes) (ci c : Certificate)
      → parse x ≡ ok ci
      → Best c (some ci) xs
      → Best c none (x ∷ xs)
  first-Best x xs ci c f b =
      (Comes-next c ci none x xs f b.0, (only x ci c f (b.2 ci refl), b.1), λ d k. absurd (cc (k)))

  better-Best :
      (c0 ci c : Certificate) (x : Bytes) (xs : List Bytes)
      → is_preferred_over ci c0 ≡ true
      → parse x ≡ ok ci
      → Best c (some ci) xs
      → Best c (some c0) (x ∷ xs)
  better-Best c0 ci c x xs better f b =
      let le = b.2 ci refl in
      (
        Comes-next c ci (some c0) x xs f b.0,
        (only x ci c f le, b.1),
        λ d k.
            let same : c0 ≡ d = cc (k) in
            subst (λ y. Precedes y c) same
              (Precedes-trans c0 ci c ((preferred_iff ci c0).0 better) le),
      )

  worse-Best :
      (c0 ci c : Certificate) (x : Bytes) (xs : List Bytes)
      → is_preferred_over ci c0 ≡ false
      → parse x ≡ ok ci
      → Best c (some c0) xs
      → Best c (some c0) (x ∷ xs)
  worse-Best c0 ci c x xs worse f b =
      let le : Precedes ci c0 = ground (arith, preferred_iff ci c0) in
      (inr b.0, (only x ci c f (Precedes-trans ci c0 c le (b.2 c0 refl)), b.1), b.2)

  choose-Best :
      (cert : Option Certificate) (xs : List Bytes) {c : Certificate}
      → choose parse cert xs ≡ some c
      → Best c cert xs
  unfolding choose
  choose-Best cert [] {c} e = kept-Best cert c e
  choose-Best none (x ∷ xs) {c} e = elim (Result-cases (parse x)) [
    | inr (x', f) ↦ skip-Best none x xs c f (choose-Best none xs (rw (choose, f) at e))
    | inl (ci, f) ↦ first-Best x xs ci c f (choose-Best (some ci) xs (rw (choose, f) at e))
  ]
  choose-Best (some c0) (x ∷ xs) {c} e = elim (Result-cases (parse x)) [
    | inr (x', f) ↦ skip-Best (some c0) x xs c f (choose-Best (some c0) xs (rw (choose, f) at e))
    | inl (ci, f) ↦ elim (Bool-cases (is_preferred_over ci c0)) [
      | inl better ↦
          better-Best c0 ci c x xs better f (choose-Best (some ci) xs (rw (choose, f, better) at e))
      | inr worse ↦
          worse-Best c0 ci c x xs worse f (choose-Best (some c0) xs (rw (choose, f, worse) at e))
    ]
  ]

  -- No byte string is a certificate.
  choose-none :
      (cert : Option Certificate) (xs : List Bytes)
      → choose parse cert xs ≡ none
      → (cert ≡ none) × All (λ x. (d : Certificate) → parse x ≢ ok d) xs
  unfolding choose
  choose-none cert [] e = (e, tt)
  choose-none none (x ∷ xs) e = elim (Result-cases (parse x)) [
    | inr (x', f) ↦ (refl, ((λ d h. cc (f, h)), (choose-none none xs (rw (choose, f) at e)).1))
    | inl (ci, f) ↦ let k = choose-none (some ci) xs (rw (choose, f) at e) in absurd (cc (k.0))
  ]
  choose-none (some c0) (x ∷ xs) e = elim (Result-cases (parse x)) [
    | inr (x', f) ↦ let k = choose-none (some c0) xs (rw (choose, f) at e) in absurd (cc (k.0))
    | inl (ci, f) ↦ elim (Bool-cases (is_preferred_over ci c0)) [
      | inl better ↦
          let k = choose-none (some ci) xs (rw (choose, f, better) at e) in absurd (cc (k.0))
      | inr worse ↦
          let k = choose-none (some c0) xs (rw (choose, f, worse) at e) in absurd (cc (k.0))
    ]
  ]

-- The certificate is read from one of the byte strings, and none of them goes before it.
abbrev pub Chosen : (Bytes → Result Certificate) → Certificate → List Bytes → Type 0
Chosen parse c xs = Comes parse c none xs × NoBetter parse c xs

Comes-parsed :
    (sign_open : Bytes → Bytes → ℕ × Bytes) (now : ℕ) (key : Bytes) (c : Certificate)
    (xs : List Bytes)
    → Comes (new_certificate sign_open now key) c none xs
    → cipher_of c ≢ undefined
Comes-parsed sign_open now key c [] h = absurd (cc (h))
Comes-parsed sign_open now key c (x ∷ xs) (inl h) = (new_certificate_lem sign_open now key x h).0
Comes-parsed sign_open now key c (x ∷ xs) (inr h) = Comes-parsed sign_open now key c xs h

-- The resolver uses the certificate.
abbrev pub Uses : Certificate → Resolver → Type 0
Uses c r =
    (r.ready_ ≡ true)
    × (r.resolver_pubkey_ ≡ c.data_.server_publickey)
    × (r.client.encryptor_magic ≡ c.data_.magic_query)
    × (r.client.cipher ≡ cipher_of c)

use_certificate_lem :
    (beforenm : BeforeNm) (c : Certificate) (r : Resolver)
    → cipher_of c ≢ undefined
    → r.ready_ ≡ false
    → let done = use_certificate beforenm c r in
      ((done.1 ≡ ok true) × Uses c done.0)
      ⊎ ((done.1 ≡ err suspicious_key)
          × (done.0.ready_ ≡ false)
          × (r.client.ephemeral_keys ≡ false))
unfolding use_certificate set_resolver_publickey
use_certificate_lem beforenm c r ne idle = ground arith

-- The outcome of `find_valid_certificate`. If it is true, the resolver is ready, its key, its
-- magic number and its cipher are those of a valid certificate from the list, and no valid
-- certificate of the list has a higher version, or the same version and a higher serial number.
-- If it is false, the resolver is not ready, and the list holds no valid certificate. If it
-- throws, the resolver is not ready, and its client does not use ephemeral keys.
pub find_valid_certificate_lem :
    (beforenm : BeforeNm) (sign_open : Bytes → Bytes → ℕ × Bytes) (now : ℕ) (trv : List Bytes)
    (r : Resolver)
    → let done = find_valid_certificate beforenm sign_open now trv r in
      let parse = new_certificate sign_open now r.pubkey_ in
      ((c : Certificate) × Chosen parse c trv × (done.1 ≡ ok true) × Uses c done.0)
      ⊎ ((done.1 ≡ ok false)
          × (done.0.ready_ ≡ false)
          × All (λ x. (d : Certificate) → parse x ≢ ok d) trv)
      ⊎ ((done.1 ≡ err suspicious_key)
          × (done.0.ready_ ≡ false)
          × (r.client.ephemeral_keys ≡ false))
unfolding find_valid_certificate
find_valid_certificate_lem beforenm sign_open now trv r =
    let parse = new_certificate sign_open now r.pubkey_ in
    elim (Option-cases (choose parse none trv)) [
      | inl e ↦
          inr (inl (rw (find_valid_certificate, e) (refl, refl, (choose-none parse none trv e).1)))
      | inr (c, e) ↦
          let best = choose-Best parse none trv e in
          let ne = Comes-parsed sign_open now r.pubkey_ c trv best.0 in
          elim (use_certificate_lem beforenm c (record r { ready_ = false }) ne refl) [
            | inl used ↦ inl (
              c,
              (best.0, best.1),
              (rw (find_valid_certificate, e) (used.0)),
              (rw (find_valid_certificate, e) (used.1)),
            )
            | inr bad ↦ inr (inr (rw (find_valid_certificate, e) bad))
          ]
    ]

-- ===== src/Dns/Crypt/Cresponder/Loaded.antt =====
-- How many servers `load` leaves, and which.
use cdns.Dns.Crypt.Certificate.{EncryptorData}
use cdns.Dns.Crypt.Certifier.{Certifier}
use cdns.Dns.Crypt.Cresponder.{Cresponder, find_crypt_provider}
use cdns.Dns.Crypt.Cresponder.Choosing.{IsKeyed}
use cdns.Dns.Crypt.Cresponder.Load.{
  certifier_of, is_usable, merge_resolvers, used_count, find_listed, is_some, keep_providers,
  load_providers, crypt_load,
}
use cdns.Dns.Crypt.Cresponder.Maps.{
  find-head, All-find-none, keep_providers-cons, keep_providers-IsKeyed, find-keep_providers,
  find-keep_providers-none,
}
use cdns.Dns.Crypt.Cresponder.Merged.{
  text_of_server, DistinctServers, find_listed-cons, find_listed-none, find_listed-All,
  listed_server_of, merged_server, merge_resolvers_lem,
}
use cdns.Dns.Crypt.Resolvers.{ListedResolver, parse_resolvers_list}
use cdns.Network.Address.{Inet}
use cdns.Prelude.{
  ◌==◌, if◌then◌else◌, ==_iff, Bool-cases, Option-cases, Bytes, length, All, All-map, ok, ℕ, ◌+◌,
  ◌≡◌, refl, sym, ap, ◌∙◌, subst, ◌≢◌, inl, inr, Bool, true, false, Option, none, some, List, [],
  ◌∷◌, arith,
}

abbrev one_if : Bool → ℕ
one_if b = if b then 1 else 0

abbrev hit : Bytes → List (Bytes × Certifier) → ℕ
hit key ps = one_if (is_some (find_crypt_provider key ps))

length-keep_providers :
    (t : Bytes → Bool) (k : Bytes) (d : Certifier) (ps : List (Bytes × Certifier))
    → length (keep_providers t ((k, d) ∷ ps)) ≡ one_if (t k) + length (keep_providers t ps)
length-keep_providers t k d ps = elim (keep_providers-cons t k d ps) [
  | inl (kept, e) ↦ ap length e ∙ rw kept (omega arith)
  | inr (dropped, e) ↦ ap length e ∙ rw dropped (omega arith)
]

-- Keeping one key more keeps one entry more, if there is one.
length-keep_more :
    (t t' : Bytes → Bool) (key : Bytes) (ps : List (Bytes × Certifier))
    → IsKeyed ps
    → t key ≡ true
    → t' key ≡ false
    → ((k : Bytes) → key ≢ k → t k ≡ t' k)
    → length (keep_providers t ps) ≡ length (keep_providers t' ps) + hit key ps
unfolding keep_providers find_crypt_provider
length-keep_more t t' key [] v here gone same = omega arith
length-keep_more t t' key ((k, d) ∷ ps) v here gone same =
    let ih = length-keep_more t t' key ps v.2 here gone same in
    let n = length-keep_providers t k d ps in
    let n' = length-keep_providers t' k d ps in
    elim (find-head k key d ps) [
      | inl (e, f) ↦
          let one : hit key ((k, d) ∷ ps) ≡ 1 = ap (λ o. one_if (is_some o)) f in
          let zero_hits : hit key ps ≡ 0 =
            ap (λ o. one_if (is_some o))
              (All-find-none key ps (subst (λ x. All (λ p. p.0 ≢ x) ps) e v.0)) in
          let a : one_if (t k) ≡ 1 = ap (λ x. one_if (t x)) e ∙ ap one_if here in
          let b : one_if (t' k) ≡ 0 = ap (λ x. one_if (t' x)) e ∙ ap one_if gone in
          omega (arith, ih, n, n', one, zero_hits, a, b)
      | inr (other, f) ↦
          let like : hit key ((k, d) ∷ ps) ≡ hit key ps = ap (λ o. one_if (is_some o)) f in
          let a : one_if (t k) ≡ one_if (t' k) = ap one_if (same k (λ p. other (sym p))) in
          omega (arith, ih, n, n', like, a)
    ]

length-keep_none : (ps : List (Bytes × Certifier)) → length (keep_providers (λ k. false) ps) ≡ 0
unfolding keep_providers
length-keep_none [] = refl
length-keep_none (p ∷ ps) = length-keep_none ps

module _ (ntop : Inet → Bytes → Bytes) where
  hits : List ListedResolver → List (Bytes × Certifier) → ℕ
  hits [] ps = 0
  hits (r ∷ rs) ps = hit (text_of_server ntop r) ps + hits rs ps

  -- The listed servers that are kept are those that are found.
  length-keep_listed :
      (rs : List ListedResolver) (ps : List (Bytes × Certifier))
      → DistinctServers ntop rs
      → IsKeyed ps
      → length (keep_providers (λ key. is_some (find_listed ntop key rs)) ps) ≡ hits rs ps
  unfolding hits find_listed
  length-keep_listed [] ps d v = length-keep_none ps
  length-keep_listed (r ∷ rs) ps d v =
      let ih = length-keep_listed rs ps d.1 v in
      let key = text_of_server ntop r in
      let t = λ (k : Bytes). is_some (find_listed ntop k (r ∷ rs)) in
      let t' = λ (k : Bytes). is_some (find_listed ntop k rs) in
      let more =
        length-keep_more t t' key ps v (ap is_some (find_listed-All ntop (r ∷ rs) d).0)
          (ap is_some (find_listed-none ntop key rs d.0))
          (λ k ne. elim (find_listed-cons ntop k r rs) [
            | inl (e, f) ↦ absurd (ne e)
            | inr (o, f) ↦ ap is_some f
          ]) in
      omega (arith, ih, more)

  used_count-hits :
      (noipv6 : Bool) (rs : List ListedResolver) (ps : List (Bytes × Certifier))
      → All (λ r. is_some (find_crypt_provider (text_of_server ntop r) ps) ≡ is_usable noipv6 r) rs
      → hits rs ps ≡ used_count noipv6 rs
  unfolding hits used_count
  used_count-hits noipv6 [] ps h = refl
  used_count-hits noipv6 (r ∷ rs) ps h =
      let ih = used_count-hits noipv6 rs ps h.1 in
      let one : hit (text_of_server ntop r) ps ≡ one_if (is_usable noipv6 r) = ap one_if h.0 in
      omega (arith, ih, one)

  listed_server_of-some :
      (make : ListedResolver → Certifier) (noipv6 : Bool) (o : Option Certifier)
      (r : ListedResolver)
      → is_some (listed_server_of ntop make noipv6 o r) ≡ is_usable noipv6 r
  listed_server_of-some make noipv6 none r = elim (Bool-cases (is_usable noipv6 r)) [
    | inl e ↦ rw e refl
    | inr e ↦ rw e refl
  ]
  listed_server_of-some make noipv6 (some d) r = elim (Bool-cases (is_usable noipv6 r)) [
    | inl e ↦ rw e refl
    | inr e ↦ rw e refl
  ]

  -- What a text of an address leads to behind `load`.
  abbrev pub loaded_server :
      (ListedResolver → Certifier)
      → Bool
      → Option ListedResolver
      → Option Certifier
      → Option Certifier
  loaded_server make noipv6 none o = none
  loaded_server make noipv6 (some r) o = listed_server_of ntop make noipv6 o r

  load_providers_lem :
      (make : ListedResolver → Certifier) (noipv6 : Bool) (rs : List ListedResolver)
      (ps : List (Bytes × Certifier))
      → DistinctServers ntop rs
      → IsKeyed ps
      → let out = load_providers ntop make noipv6 (ok rs) ps in
        (out.1 ≡ none)
        × IsKeyed out.0
        × ((key : Bytes)
            → find_crypt_provider key out.0
              ≡ loaded_server make noipv6 (find_listed ntop key rs) (find_crypt_provider key ps))
  unfolding load_providers
  load_providers_lem make noipv6 rs ps d v =
      let merged = merge_resolvers ntop make noipv6 rs ps in
      let test = λ (key : Bytes). is_some (find_listed ntop key rs) in
      let m = merge_resolvers_lem ntop make noipv6 rs ps d v in
      let found =
        All-map (λ r. find_listed ntop (text_of_server ntop r) rs ≡ some r)
          (λ r. is_some (find_crypt_provider (text_of_server ntop r) merged) ≡ is_usable noipv6 r)
          rs
          (λ r e.
            ap is_some (
              m.1 (text_of_server ntop r)
              ∙ ap
                  (λ l.
                    merged_server ntop make noipv6 l
                      (find_crypt_provider (text_of_server ntop r) ps))
                  e)
            ∙ listed_server_of-some make noipv6 (find_crypt_provider (text_of_server ntop r) ps) r)
          (find_listed-All ntop rs d) in
      let count : length (keep_providers test merged) ≡ used_count noipv6 rs =
        length-keep_listed rs merged d m.0 ∙ used_count-hits noipv6 rs merged found in
      let counted : (length (keep_providers test merged) == used_count noipv6 rs) ≡ true =
        (==_iff _ _).1 count in
      (
        rw counted refl,
        keep_providers-IsKeyed test merged m.0,
        λ key. elim (Option-cases (find_listed ntop key rs)) [
          | inl unlisted ↦
              find-keep_providers-none test key merged (ap is_some unlisted)
              ∙ sym (ap (λ l. loaded_server make noipv6 l (find_crypt_provider key ps)) unlisted)
          | inr (r, e) ↦
              find-keep_providers test key merged (ap is_some e)
              ∙ m.1 key
              ∙ ap (λ l. merged_server ntop make noipv6 l (find_crypt_provider key ps)) e
              ∙ sym (ap (λ l. loaded_server make noipv6 l (find_crypt_provider key ps)) e)
        ],
      )

  -- Where the file gives a list in which no two servers have the same address and port, and the texts of
  -- the addresses of the servers so far are different and not empty: no exception leaves `load`; the
  -- texts are different and not empty again; and a text leads to a server exactly if a server with it is
  -- listed, of a family that may be used: to the server that was there before, as it was, or else to
  -- the new one of the list.
  pub crypt_load_lem :
      (pton : Inet → Bytes → Option Bytes) (sodium_hex2bin : Bytes → ℕ × Bytes)
      (client : ListedResolver → EncryptorData) (noipv6 tcp : Bool) (file : Option Bytes)
      (c : Cresponder) (rs : List ListedResolver)
      → parse_resolvers_list pton sodium_hex2bin tcp file ≡ ok rs
      → DistinctServers ntop rs
      → IsKeyed c.dnscrypt_providers
      → let out = crypt_load pton ntop sodium_hex2bin client noipv6 tcp file c in
        (out.1 ≡ none)
        × IsKeyed out.0.dnscrypt_providers
        × ((key : Bytes)
            → find_crypt_provider key out.0.dnscrypt_providers
              ≡ loaded_server
                  (λ r. certifier_of (client r) r)
                  noipv6
                  (find_listed ntop key rs)
                  (find_crypt_provider key c.dnscrypt_providers))
  unfolding crypt_load
  crypt_load_lem pton sodium_hex2bin client noipv6 tcp file c rs e d v =
      rw (e)
        (load_providers_lem (λ r. certifier_of (client r) r) noipv6 rs c.dnscrypt_providers d v)

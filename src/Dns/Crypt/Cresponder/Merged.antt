-- ===== src/Dns/Crypt/Cresponder/Merged.antt =====
-- The servers that `load` leaves.
use cdns.Dns.Crypt.Certifier.{Certifier}
use cdns.Dns.Crypt.Cresponder.{find_crypt_provider}
use cdns.Dns.Crypt.Cresponder.Choosing.{IsKeyed, bytes_eq-ne}
use cdns.Dns.Crypt.Cresponder.Load.{
  put_provider, erase_provider, is_usable, merge_resolver, merge_resolvers, find_listed,
}
use cdns.Dns.Crypt.Cresponder.Maps.{
  find-none-All, find-put_provider, find-put_provider_other, put_provider-IsKeyed,
  keep_providers-IsKeyed, find-keep_providers, find-keep_providers-none, erase_provider-keep,
}
use cdns.Dns.Crypt.Resolvers.{ListedResolver}
use cdns.Dns.Crypt.Resolvers.RoundTrip.{ip_port_some}
use cdns.Network.Address.{Inet, ip_port}
use cdns.Prelude.{
  if◌then◌else◌, Bool-cases, Option-cases, Bytes, bytes_eq, bytes_eq_iff, bytes_eq_refl, All, ◌≡◌,
  refl, sym, ap, ◌∙◌, subst, ◌≢◌, ◌⊎◌, inl, inr, Bool, true, false, not, Option, none, some, List,
  [], ◌∷◌,
}

All-both {ℓ κ} :
    {A : Type ℓ} (P Q R : A → Type κ) (xs : List A)
    → ((x : A) → P x → Q x → R x)
    → All P xs
    → All Q xs
    → All R xs
All-both P Q R [] f h k = tt
All-both P Q R (x ∷ xs) f h k = (f x h.0 k.0, All-both P Q R xs f h.1 k.1)

module _ (ntop : Inet → Bytes → Bytes) where
  abbrev pub text_of_server : ListedResolver → Bytes
  text_of_server r = ip_port ntop r.address

  -- No two servers of a list have the same address and port.
  abbrev pub DistinctServers : List ListedResolver → Type 0
  DistinctServers [] = Unit
  DistinctServers (r ∷ rs) = All (λ s. text_of_server s ≢ text_of_server r) rs × DistinctServers rs

  pub find_listed-cons :
      (k : Bytes) (r : ListedResolver) (rs : List ListedResolver)
      → ((text_of_server r ≡ k) × (find_listed ntop k (r ∷ rs) ≡ some r))
        ⊎ ((text_of_server r ≢ k) × (find_listed ntop k (r ∷ rs) ≡ find_listed ntop k rs))
  unfolding find_listed
  find_listed-cons k r rs = elim (Bool-cases (bytes_eq (text_of_server r) k)) [
    | inl same ↦ inl ((bytes_eq_iff (text_of_server r) k).0 same, rw (find_listed, same) refl)
    | inr other ↦
        inr
          (λ e. let g = (bytes_eq_iff (text_of_server r) k).1 e in cc, rw (find_listed, other) refl)
  ]

  pub find_listed-none :
      (k : Bytes) (rs : List ListedResolver)
      → All (λ s. text_of_server s ≢ k) rs
      → find_listed ntop k rs ≡ none
  unfolding find_listed
  find_listed-none k [] h = refl
  find_listed-none k (r ∷ rs) h = elim (find_listed-cons k r rs) [
    | inl (same, e) ↦ absurd (h.0 same)
    | inr (other, e) ↦ e ∙ find_listed-none k rs h.1
  ]

  -- Each server of a list is found.
  pub find_listed-All :
      (rs : List ListedResolver)
      → DistinctServers rs
      → All (λ r. find_listed ntop (text_of_server r) rs ≡ some r) rs
  find_listed-All [] d = tt
  find_listed-All (r ∷ rs) d = (
    elim (find_listed-cons (text_of_server r) r rs) [
      | inl (same, e) ↦ e
      | inr (other, e) ↦ absurd (other refl)
    ],
    All-both (λ s. text_of_server s ≢ text_of_server r)
        (λ s. find_listed ntop (text_of_server s) rs ≡ some s)
        (λ s. find_listed ntop (text_of_server s) (r ∷ rs) ≡ some s) rs
        (λ s h e. elim (find_listed-cons (text_of_server s) r rs) [
          | inl (same, f) ↦ absurd (h (sym same))
          | inr (other, f) ↦ f ∙ e
        ])
        d.0 (find_listed-All rs d.1),
  )

  module _ (make : ListedResolver → Certifier) (noipv6 : Bool) where
    -- What becomes of a server that is listed: the one that is there, or a new one, if it may be used.
    abbrev pub listed_server_of : Option Certifier → ListedResolver → Option Certifier
    listed_server_of none r = if is_usable noipv6 r then some (make r) else none
    listed_server_of (some d) r = if is_usable noipv6 r then some d else none

    -- What the merging of one server makes of a map.
    abbrev MergesOne : ListedResolver → List (Bytes × Certifier) → List (Bytes × Certifier) → Type 0
    MergesOne r ps ps' =
        IsKeyed ps'
        × (find_crypt_provider (text_of_server r) ps'
            ≡ listed_server_of (find_crypt_provider (text_of_server r) ps) r)
        × ((k : Bytes)
            → text_of_server r ≢ k
            → find_crypt_provider k ps' ≡ find_crypt_provider k ps)

    put_provider-MergesOne :
        (r : ListedResolver) (ps : List (Bytes × Certifier))
        → IsKeyed ps
        → find_crypt_provider (text_of_server r) ps ≡ none
        → is_usable noipv6 r ≡ true
        → MergesOne r ps (put_provider (text_of_server r) (make r) ps)
    put_provider-MergesOne r ps v absent usable =
        let free = find-none-All (text_of_server r) ps absent in
        let made : listed_server_of (find_crypt_provider (text_of_server r) ps) r ≡ some (make r) =
          rw (absent, usable) refl in
        (
          put_provider-IsKeyed (text_of_server r) (make r) ps free (ip_port_some ntop r.address) v,
          find-put_provider (text_of_server r) (make r) ps free ∙ sym made,
          λ k ne. find-put_provider_other (text_of_server r) (make r) k ps ne,
        )

    erase_provider-MergesOne :
        (r : ListedResolver) (ps : List (Bytes × Certifier)) {d : Certifier}
        → IsKeyed ps
        → find_crypt_provider (text_of_server r) ps ≡ some d
        → is_usable noipv6 r ≡ false
        → MergesOne r ps (erase_provider (text_of_server r) ps)
    erase_provider-MergesOne r ps v there barred =
        let test = λ (k : Bytes). not (bytes_eq k (text_of_server r)) in
        let gone : listed_server_of (find_crypt_provider (text_of_server r) ps) r ≡ none =
          rw (there, barred) refl in
        let tested : test (text_of_server r) ≡ false = ap not (bytes_eq_refl (text_of_server r)) in
        subst (MergesOne r ps) (sym (erase_provider-keep (text_of_server r) ps v)) (
          keep_providers-IsKeyed test ps v,
          find-keep_providers-none test (text_of_server r) ps tested ∙ sym gone,
          λ k ne.
              find-keep_providers test k ps
                (ap not (bytes_eq-ne k (text_of_server r) (λ e. ne (sym e)))),
        )

    merge_resolver-MergesOne :
        (r : ListedResolver) (ps : List (Bytes × Certifier))
        → IsKeyed ps
        → MergesOne r ps (merge_resolver ntop make noipv6 r ps)
    unfolding merge_resolver
    merge_resolver-MergesOne r ps v =
        elim (Option-cases (find_crypt_provider (text_of_server r) ps)) [
          | inl absent ↦ elim (Bool-cases (is_usable noipv6 r)) [
            | inl usable ↦
                let same : merge_resolver ntop make noipv6 r ps
                    ≡ put_provider (text_of_server r) (make r) ps =
                  rw (merge_resolver, absent, usable) refl in
                subst (MergesOne r ps) (sym same) (put_provider-MergesOne r ps v absent usable)
            | inr barred ↦
                let same : merge_resolver ntop make noipv6 r ps ≡ ps =
                  rw (merge_resolver, absent, barred) refl in
                let gone : listed_server_of (find_crypt_provider (text_of_server r) ps) r ≡ none =
                  rw (absent, barred) refl in
                subst (MergesOne r ps) (sym same) (v, absent ∙ sym gone, λ k ne. refl)
          ]
          | inr (d, there) ↦ elim (Bool-cases (is_usable noipv6 r)) [
            | inl usable ↦
                let same : merge_resolver ntop make noipv6 r ps ≡ ps =
                  rw (merge_resolver, there, usable) refl in
                let left : listed_server_of (find_crypt_provider (text_of_server r) ps) r ≡ some d =
                  rw (there, usable) refl in
                subst (MergesOne r ps) (sym same) (v, there ∙ sym left, λ k ne. refl)
            | inr barred ↦
                let same : merge_resolver ntop make noipv6 r ps
                    ≡ erase_provider (text_of_server r) ps =
                  rw (merge_resolver, there, barred) refl in
                subst (MergesOne r ps) (sym same) (erase_provider-MergesOne r ps v there barred)
          ]
        ]

    -- What a key leads to behind the first loop.
    abbrev pub merged_server : Option ListedResolver → Option Certifier → Option Certifier
    merged_server none o = o
    merged_server (some r) o = listed_server_of o r

    pub merge_resolvers_lem :
        (rs : List ListedResolver) (ps : List (Bytes × Certifier))
        → DistinctServers rs
        → IsKeyed ps
        → IsKeyed (merge_resolvers ntop make noipv6 rs ps)
          × ((k : Bytes)
              → find_crypt_provider k (merge_resolvers ntop make noipv6 rs ps)
                ≡ merged_server (find_listed ntop k rs) (find_crypt_provider k ps))
    unfolding merge_resolvers find_listed
    merge_resolvers_lem [] ps d v = (v, λ k. refl)
    merge_resolvers_lem (r ∷ rs) ps d v =
        let one = merge_resolver-MergesOne r ps v in
        let rest = merge_resolvers_lem rs (merge_resolver ntop make noipv6 r ps) d.1 one.0 in
        (
          rest.0,
          λ k.
              let o = find_crypt_provider k (merge_resolver ntop make noipv6 r ps) in
              let before = find_crypt_provider k ps in
              elim (find_listed-cons k r rs) [
                | inl (same, e) ↦
                    let later : find_listed ntop k rs ≡ none =
                      find_listed-none k rs
                        (subst (λ x. All (λ s. text_of_server s ≢ x) rs) same d.0) in
                    let here : o ≡ listed_server_of before r =
                      subst
                        (λ x.
                          find_crypt_provider x (merge_resolver ntop make noipv6 r ps)
                          ≡ listed_server_of (find_crypt_provider x ps) r)
                        same one.1 in
                    rest.1 k
                    ∙ ap (λ l. merged_server l o) later
                    ∙ here
                    ∙ sym (ap (λ l. merged_server l before) e)
                | inr (other, e) ↦
                    rest.1 k
                    ∙ ap (merged_server (find_listed ntop k rs)) (one.2 k other)
                    ∙ sym (ap (λ l. merged_server l before) e)
              ],
        )

-- ===== src/Dns/Crypt/Cresponder/Choosing.antt =====
-- Which DNSCrypt server is asked.
use Prim.Native.Nat.{min}
use cdns.Dns.Crypt.Certifier.{Certifier}
use cdns.Dns.Crypt.Cresponder.{
  Cresponder, crypt_provider, ready_keys, select_crypt_provider, find_crypt_provider,
  crypt_provider_of, crypt_random_provider,
}
use cdns.Dns.Responder.{zone_provider}
use cdns.Network.Packet.{Packet}
use cdns.Prelude.{
  ◌==◌, ==_iff, Bool-cases, Bytes, bytes_eq, bytes_eq_iff, bytes_eq_refl, length, get_or, All, ok,
  ℕ, zero, suc, ◌%◌, ◌<◌, ◌≡◌, refl, sym, ap, ◌∙◌, subst, ◌≢◌, ◌⊎◌, inl, inr, true, false, none,
  some, List, [], ◌∷◌, arith,
}

-- The keys of a `std::map`: none twice, and none empty, since a text of an address has a colon.
abbrev pub IsKeyed : List (Bytes × Certifier) → Type 0
IsKeyed [] = Unit
IsKeyed (e ∷ es) = All (λ f. f.0 ≢ e.0) es × (0 < length e.0) × IsKeyed es

-- What holds of all keys holds of a key that is found.
pub find_crypt_provider-All :
    (P : Bytes → Type 0) (k : Bytes) (ps : List (Bytes × Certifier)) {d : Certifier}
    → All (λ e. P e.0) ps
    → find_crypt_provider k ps ≡ some d
    → P k
unfolding find_crypt_provider
find_crypt_provider-All P k [] h e = cc
find_crypt_provider-All P k ((key, c) ∷ ps) h e = elim (Bool-cases (bytes_eq key k)) [
  | inl same ↦ subst P ((bytes_eq_iff key k).0 same) h.0
  | inr other ↦ find_crypt_provider-All P k ps h.1 (rw (find_crypt_provider, other) at e)
]

pub bytes_eq-ne : (s t : Bytes) → s ≢ t → bytes_eq s t ≡ false
bytes_eq-ne s t h = elim (Bool-cases (bytes_eq s t)) [
  | inl same ↦ absurd (h ((bytes_eq_iff s t).0 same))
  | inr other ↦ other
]

-- A server that is found behind another one, with another key, is found behind both.
find-cons :
    (k key : Bytes) (c : Certifier) (ps : List (Bytes × Certifier)) {d : Certifier}
    → All (λ e. e.0 ≢ key) ps
    → find_crypt_provider k ps ≡ some d
    → find_crypt_provider k ((key, c) ∷ ps) ≡ some d
unfolding find_crypt_provider
find-cons k key c ps h e =
    let other : k ≢ key = find_crypt_provider-All (λ x. x ≢ key) k ps h e in
    rw (find_crypt_provider, bytes_eq-ne key k (λ p. other (sym p))) e

IsKeyed-All : (ps : List (Bytes × Certifier)) → IsKeyed ps → All (λ e. 0 < length e.0) ps
IsKeyed-All [] h = tt
IsKeyed-All (p ∷ ps) h = (h.1, IsKeyed-All ps h.2)

-- A key that leads to a server that is ready.
abbrev LeadsToReady : List (Bytes × Certifier) → Bytes → Type 0
LeadsToReady ps key =
    (d : Certifier) × (find_crypt_provider key ps ≡ some d) × (d.resolver.ready_ ≡ true)

LeadsToReady-cons :
    (key k : Bytes) (c : Certifier) (ps : List (Bytes × Certifier))
    → All (λ e. e.0 ≢ key) ps
    → LeadsToReady ps k
    → LeadsToReady ((key, c) ∷ ps) k
LeadsToReady-cons key k c ps h (d, e, f) = (d, find-cons k key c ps h e, f)

LeadsToReady-first :
    (key : Bytes) (c : Certifier) (ps : List (Bytes × Certifier))
    → c.resolver.ready_ ≡ true
    → LeadsToReady ((key, c) ∷ ps) key
unfolding find_crypt_provider
LeadsToReady-first key c ps ready = (c, rw (find_crypt_provider, bytes_eq_refl key) refl, ready)

ready_keys-cons :
    (key : Bytes) (c : Certifier) (ps : List (Bytes × Certifier))
    → ((c.resolver.ready_ ≡ true) × (ready_keys ((key, c) ∷ ps) ≡ key ∷ ready_keys ps))
      ⊎ ((c.resolver.ready_ ≡ false) × (ready_keys ((key, c) ∷ ps) ≡ ready_keys ps))
unfolding ready_keys
ready_keys-cons key c ps = elim (Bool-cases c.resolver.ready_) [
  | inl ready ↦ inl (ready, rw (ready_keys, ready) refl)
  | inr waits ↦ inr (waits, rw (ready_keys, waits) refl)
]

-- Each key in the list of the servers that are ready leads to such a server.
ready_keys-LeadsToReady :
    (ps : List (Bytes × Certifier)) (i : ℕ)
    → IsKeyed ps
    → i < length (ready_keys ps)
    → LeadsToReady ps (get_or (ready_keys ps) i [])
unfolding ready_keys
ready_keys-LeadsToReady [] i h lt = absurd (omega (arith, lt))
ready_keys-LeadsToReady ((key, c) ∷ ps) i h lt =
    let head = λ (l : List Bytes). LeadsToReady ((key, c) ∷ ps) (get_or l i []) in
    let later = λ (j : ℕ) (lt' : j < length (ready_keys ps)).
      LeadsToReady-cons key (get_or (ready_keys ps) j []) c ps h.0
        (ready_keys-LeadsToReady ps j h.2 lt') in
    elim (ready_keys-cons key c ps) [
      | inr (waits, e) ↦ subst head (sym e) (later i (omega (arith, lt, ap length e)))
      | inl (ready, e) ↦
          subst head (sym e) (at_ready i ready (omega (arith, lt, ap length e)) later)
    ]
  where
    at_ready :
        (i : ℕ)
        → c.resolver.ready_ ≡ true
        → i < suc (length (ready_keys ps))
        → ((j : ℕ)
            → j < length (ready_keys ps)
            → LeadsToReady ((key, c) ∷ ps) (get_or (ready_keys ps) j []))
        → LeadsToReady ((key, c) ∷ ps) (get_or (key ∷ ready_keys ps) i [])
    at_ready zero ready lt later = LeadsToReady-first key c ps ready
    at_ready (suc j) ready lt later = later j (omega (arith, lt))

ready_keys-none :
    (ps : List (Bytes × Certifier))
    → length (ready_keys ps) ≡ 0
    → All (λ e. e.1.resolver.ready_ ≡ false) ps
unfolding ready_keys
ready_keys-none [] h = tt
ready_keys-none ((key, c) ∷ ps) h = elim (ready_keys-cons key c ps) [
  | inl (ready, e) ↦ absurd (omega (arith, h, ap length e))
  | inr (waits, e) ↦ (waits, ready_keys-none ps (ap length (sym e) ∙ h))
]

-- What is chosen when the text of a server is selected.
crypt_provider_of-found :
    (rand : ℕ) (ps : List (Bytes × Certifier)) {d : Certifier}
    → 0 < length (select_crypt_provider rand ps)
    → find_crypt_provider (select_crypt_provider rand ps) ps ≡ some d
    → crypt_provider_of rand ps ≡ some (crypt_provider (select_crypt_provider rand ps))
unfolding crypt_provider_of
crypt_provider_of-found rand ps long e =
    let named : (length (select_crypt_provider rand ps) == 0) ≡ false = ground (arith, long) in
    rw (named, e) refl

-- Where a request is not for the zone of the onion server, there are DNSCrypt servers, none twice and none
-- with an empty address: whatever the random number is, either a server of the list that is ready is
-- chosen, or no server is ready and none is chosen.
pub crypt_random_provider_lem :
    (rand : ℕ) (p : Packet) (c : Cresponder)
    → IsKeyed c.dnscrypt_providers
    → 0 < length c.dnscrypt_providers
    → zone_provider p c.base ≡ ok none
    → ((key : Bytes) × (d : Certifier) × (crypt_random_provider rand p c
          ≡ ok (some (crypt_provider key)))
        × (find_crypt_provider key c.dnscrypt_providers ≡ some d)
        × (d.resolver.ready_ ≡ true))
      ⊎ ((crypt_random_provider rand p c ≡ ok none)
          × All (λ e. e.1.resolver.ready_ ≡ false) c.dnscrypt_providers)
unfolding crypt_random_provider crypt_provider_of select_crypt_provider
crypt_random_provider_lem rand p c keyed some_servers no_zone =
    let ps = c.dnscrypt_providers in
    let n = length (ready_keys ps) in
    let filled : (length ps == 0) ≡ false = ground (arith, some_servers) in
    elim (Bool-cases (n == 0)) [
      | inl nobody ↦ inr (
        rw (no_zone, filled, crypt_provider_of, select_crypt_provider, nobody) refl,
        ready_keys-none ps ((==_iff n 0).0 nobody),
      )
      | inr somebody ↦
          let i = rand % min n 2147483647 in
          let lt : i < n = ground (arith, somebody) in
          let key = select_crypt_provider rand ps in
          let selected : key ≡ get_or (ready_keys ps) i [] =
            rw (select_crypt_provider, somebody) refl in
          let (d, e, f) : LeadsToReady ps key =
            subst (LeadsToReady ps) (sym selected) (ready_keys-LeadsToReady ps i keyed lt) in
          let long : 0 < length key =
            find_crypt_provider-All (λ k. 0 < length k) key ps (IsKeyed-All ps keyed) e in
          let chosen = crypt_provider_of-found rand ps long e in
          inl (key, d, rw (no_zone, filled, chosen) refl, e, f)
    ]

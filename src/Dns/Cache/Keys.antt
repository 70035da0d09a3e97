-- ===== src/Dns/Cache/Keys.antt =====
-- The entries as a map from names and types.
use cdns.Dns.Cache.{CacheEntry, same_key, lookup_entry, update_entry, insert_entry}
use cdns.Prelude.{
  if◌then◌else◌, Bool-cases, Bytes, bytes_eq_iff, ℕ, ◌≡◌, refl, ◌∙◌, inl, inr, true, false, none,
  some, List, [], ◌∷◌, arith,
}

-- No entry has the key of `n`.
abbrev pub Absent : CacheEntry → List CacheEntry → Type 0
Absent n es = lookup_entry n.name n.type es ≡ none

-- No key stands twice.
unfoldable pub Distinct : List CacheEntry → Type 0
Distinct [] = Unit {0}
Distinct (e ∷ es) = Absent e es × Distinct es

pub same_key_trans :
    (name : Bytes) (type : ℕ) (d e : CacheEntry)
    → same_key name type d ≡ true
    → same_key name type e ≡ same_key d.name d.type e
same_key_trans name type d e h =
    ground (arith, bytes_eq_iff d.name name, bytes_eq_iff e.name name, bytes_eq_iff e.name d.name)

pub same_key_comm : (d e : CacheEntry) → same_key d.name d.type e ≡ same_key e.name e.type d
same_key_comm d e = ground (arith, bytes_eq_iff d.name e.name, bytes_eq_iff e.name d.name)

-- A write to an entry is read at its key, and at no other.
pub lookup-update :
    (name : Bytes) (type : ℕ) (n : CacheEntry) (es : List CacheEntry) {e : CacheEntry}
    → lookup_entry n.name n.type es ≡ some e
    → lookup_entry name type (update_entry n es)
      ≡ (if same_key name type n then some n else lookup_entry name type es)
unfolding lookup_entry update_entry
lookup-update name type n [] {e} h = cc
lookup-update name type n (d ∷ es) {e} h = ground (
  arith,
  lookup-update name type n es {e = e},
  same_key_trans name type n d,
  same_key_trans name type d n,
  same_key_comm n d,
)

pub lookup-insert :
    (name : Bytes) (type : ℕ) (n : CacheEntry) (es : List CacheEntry)
    → Absent n es
    → lookup_entry name type (insert_entry n es)
      ≡ (if same_key name type n then some n else lookup_entry name type es)
unfolding lookup_entry insert_entry
lookup-insert name type n [] h = ground arith
lookup-insert name type n (e ∷ es) h =
    ground (arith, lookup-insert name type n es, same_key_trans name type n e)

same_key_refl : (n : CacheEntry) → same_key n.name n.type n ≡ true
same_key_refl n = ground (arith, bytes_eq_iff n.name n.name)

-- The key of what is found.
pub lookup-key :
    (name : Bytes) (type : ℕ) (es : List CacheEntry) {e : CacheEntry}
    → lookup_entry name type es ≡ some e
    → (e.name ≡ name) × (e.type ≡ type)
unfolding lookup_entry
lookup-key name type [] {e} h = cc
lookup-key name type (d ∷ es) {e} h =
    ground (arith, bytes_eq_iff d.name name, lookup-key name type es {e = e})

pub update-Distinct :
    (n : CacheEntry) (es : List CacheEntry) {e : CacheEntry}
    → lookup_entry n.name n.type es ≡ some e
    → Distinct es
    → Distinct (update_entry n es)
unfolding lookup_entry update_entry Distinct
update-Distinct n [] {e} h d = cc
update-Distinct n (x ∷ es) {e} h d = elim (Bool-cases (same_key n.name n.type x)) [
  | inl same ↦ rw same (same_absent same, d.1)
  | inr other ↦
      let rest : lookup_entry n.name n.type es ≡ some e = ground arith in
      let ne : same_key x.name x.type n ≡ false = same_key_comm x n ∙ other in
      rw other (lookup-update x.name x.type n es rest ∙ (rw ne d.0), update-Distinct n es rest d.1)
]
  where
    same_absent : same_key n.name n.type x ≡ true → Absent n es
    same_absent s =
        let k : (x.name ≡ n.name) × (x.type ≡ n.type) =
          ground (arith, bytes_eq_iff x.name n.name) in
        rw (← k.0, ← k.1) d.0

pub insert-Distinct :
    (n : CacheEntry) (es : List CacheEntry)
    → Absent n es
    → Distinct es
    → Distinct (insert_entry n es)
unfolding lookup_entry insert_entry Distinct
insert-Distinct n [] h d = (refl, tt)
insert-Distinct n (x ∷ es) h d =
    let other : same_key n.name n.type x ≡ false = ground arith in
    let rest : Absent n es = ground arith in
    let ne : same_key x.name x.type n ≡ false = same_key_comm x n ∙ other in
    rw other (lookup-insert x.name x.type n es rest ∙ (rw ne d.0), insert-Distinct n es rest d.1)

-- ===== src/Dns/Cache/Kept.antt =====
-- What `replace_entry` and `collect_garbage` make of the map.
use cdns.Dns.Cache.{
  CacheEntry, Cache, same_key, lookup_entry, find, update_entry, insert_entry, replace_entry,
  collect_garbage_list,
}
use cdns.Dns.Cache.Keys.{
  Absent, Distinct, lookup-update, lookup-insert, lookup-key, update-Distinct, insert-Distinct,
}
use cdns.Prelude.{
  ltb, if◌then◌else◌, Bool-cases, Option-cases, Bytes, bytes_eq_iff, ℕ, ◌+◌, ◌%◌, ◌≡◌, refl, sym,
  ap, ◌∙◌, ◌⊎◌, inl, inr, Option, none, some, List, [], ◌∷◌, arith,
}
use cdns.Sys.Ascii.{ascii_tolower_copy}

-- The entry that `replace_entry` leaves for a key.
abbrev pub entry : ℕ → Bytes → Bytes → ℕ → ℕ → CacheEntry
entry now host wire ttl type = record {
  name = host;
  type = type % 65536;
  deadline = now + ttl;
  response = wire;
}

entry_found :
    (now : ℕ) (host wire : Bytes) (ttl type : ℕ) (es : List CacheEntry) {e : CacheEntry}
    → lookup_entry host (type % 65536) es ≡ some e
    → record e { response = wire; deadline = now + ttl } ≡ entry now host wire ttl type
entry_found now host wire ttl type es {e} h =
    let k = lookup-key host (type % 65536) es h in cc (k.0, k.1)

find-lower :
    (host : Bytes) (type : ℕ) (c : Cache)
    → ascii_tolower_copy host ≡ host
    → find host type c ≡ lookup_entry host (type % 65536) c.entries
unfolding find
find-lower host type c low = ap (λ h. lookup_entry h (type % 65536) c.entries) low

-- `replace_entry` on the list.
replace_cases :
    (now : ℕ) (host wire : Bytes) (ttl type : ℕ) (c : Cache)
    → ascii_tolower_copy host ≡ host
    → let n = entry now host wire ttl type in
      let c' = replace_entry now host wire ttl type c in
      ((e : CacheEntry) × (lookup_entry n.name n.type c.entries ≡ some e)
        × (c' ≡ record c { entries = update_entry n c.entries }))
      ⊎ (Absent n c.entries × (c' ≡ record c { entries = insert_entry n c.entries }))
unfolding replace_entry
replace_cases now host wire ttl type c low =
    let f = find-lower host type c low in
    elim (Option-cases (find host type c)) [
      | inr (e, q) ↦
          let q' : lookup_entry host (type % 65536) c.entries ≡ some e = sym f ∙ q in
          inl (
            e,
            q',
            rw (replace_entry, q)
                (ap (λ n. record c { entries = update_entry n c.entries })
                  (entry_found now host wire ttl type c.entries q')),
          )
      | inl q ↦ inr (sym f ∙ q, rw (replace_entry, q) refl)
    ]

-- After `replace_entry`, with a name in lower case, a question for that name, in any case, and
-- that type, as 16 bits, finds the new entry; every other question finds what it found before.
pub find-replace_entry :
    (now : ℕ) (host wire : Bytes) (ttl type : ℕ) (c : Cache) (name : Bytes) (t : ℕ)
    → ascii_tolower_copy host ≡ host
    → find name t (replace_entry now host wire ttl type c) ≡ (
        if same_key (ascii_tolower_copy name) (t % 65536) (entry now host wire ttl type)
        then some (entry now host wire ttl type)
        else find name t c)
unfolding find
find-replace_entry now host wire ttl type c name t low =
    elim (replace_cases now host wire ttl type c low) [
      | inl (e, found, same) ↦ rw same (
          lookup-update (ascii_tolower_copy name) (t % 65536) (entry now host wire ttl type)
            c.entries found)
      | inr (absent, same) ↦ rw same (
          lookup-insert (ascii_tolower_copy name) (t % 65536) (entry now host wire ttl type)
            c.entries absent)
    ]

pub replace_entry-Distinct :
    (now : ℕ) (host wire : Bytes) (ttl type : ℕ) (c : Cache)
    → ascii_tolower_copy host ≡ host
    → Distinct c.entries
    → Distinct (replace_entry now host wire ttl type c).entries
replace_entry-Distinct now host wire ttl type c low d =
    elim (replace_cases now host wire ttl type c low) [
      | inl (e, found, same) ↦
          rw same (update-Distinct (entry now host wire ttl type) c.entries found d)
      | inr (absent, same) ↦
          rw same (insert-Distinct (entry now host wire ttl type) c.entries absent d)
    ]

-- An entry, unless its deadline is over.
abbrev pub unless_over : ℕ → Option CacheEntry → Option CacheEntry
unless_over now none = none
unless_over now (some e) = if ltb e.deadline now then none else some e

collect-Absent :
    (now : ℕ) (name : Bytes) (type : ℕ) (es : List CacheEntry)
    → lookup_entry name type es ≡ none
    → lookup_entry name type (collect_garbage_list now es) ≡ none
unfolding lookup_entry collect_garbage_list
collect-Absent now name type [] h = refl
collect-Absent now name type (e ∷ es) h = ground (arith, collect-Absent now name type es)

pub lookup-collect_garbage :
    (now : ℕ) (name : Bytes) (type : ℕ) (es : List CacheEntry)
    → Distinct es
    → lookup_entry name type (collect_garbage_list now es)
      ≡ unless_over now (lookup_entry name type es)
unfolding lookup_entry collect_garbage_list Distinct
lookup-collect_garbage now name type [] d = refl
lookup-collect_garbage now name type (e ∷ es) d =
    let ih = lookup-collect_garbage now name type es d.1 in
    elim (Bool-cases (same_key name type e)) [
      | inl same ↦
          let k : (e.name ≡ name) × (e.type ≡ type) = ground (arith, bytes_eq_iff e.name name) in
          let gone : lookup_entry name type es ≡ none = rw (← k.0, ← k.1) d.0 in
          ground (arith, collect-Absent now name type es)
      | inr other ↦ ground arith
    ]

pub collect_garbage-Distinct :
    (now : ℕ) (es : List CacheEntry) → Distinct es → Distinct (collect_garbage_list now es)
unfolding collect_garbage_list Distinct
collect_garbage-Distinct now [] d = tt
collect_garbage-Distinct now (e ∷ es) d =
    ground (arith, collect_garbage-Distinct now es d.1, collect-Absent now e.name e.type es d.0)

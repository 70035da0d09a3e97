-- ===== src/Dns/Cache/File/RoundTrip.antt =====
-- The file of a cache is loaded as the cache that was saved.
use cdns.Dns.Cache.{CacheEntry, Cache, new_cache, same_key, lookup_entry, insert_entry}
use cdns.Dns.Cache.File.{
  le_bytes, le_value, magick, entry_body, print_entry, print_entries, save_as, read_bytes,
  read_number, read_key, deadline_value, read_entry, load_entries, load_file,
}
use cdns.Dns.Cache.Keys.{Absent, Distinct, same_key_comm}
use cdns.Dns.Constants.{max_size}
use cdns.Prelude.{
  ltb, leb, tests, Bytes, codes, bytes_eq_refl, length, take, drop, length-append, take-append,
  drop-append, All, Error, wrong_magick, corrupt_cache, ok, ℕ, zero, suc, ◌+◌, ◌≤◌, ◌<◌, ◌≡◌, refl,
  sym, ap, ◌∙◌, subst, true, false, ◌&&◌, none, List, [], ◌∷◌, ◌++◌, append-nil, append_assoc,
  arith,
}

read_bytes-append : (xs r : Bytes) → read_bytes (length xs) (xs ++ r) ≡ ok (xs, r)
unfolding read_bytes
read_bytes-append xs r =
    let n = length-append xs r in
    let fits : leb (length xs) (length (xs ++ r)) ≡ true = omega (tests, n) in
    rw (fits, take-append xs r, drop-append xs r) refl

pub read_number8 :
    (v : ℕ) (r : Bytes) → v < 18446744073709551616 → read_number 8 (le_bytes 8 v ++ r) ≡ ok (v, r)
unfolding read_number le_bytes le_value
read_number8 v r h =
    let e : le_value (le_bytes 8 v) ≡ v = omega arith in
    rw (read_bytes-append (le_bytes 8 v) r) (ap (λ x. ok (x, r)) e)

pub read_number4 :
    (v : ℕ) (r : Bytes) → v < 4294967296 → read_number 4 (le_bytes 4 v ++ r) ≡ ok (v, r)
unfolding read_number le_bytes le_value
read_number4 v r h =
    let e : le_value (le_bytes 4 v) ≡ v = omega arith in
    rw (read_bytes-append (le_bytes 4 v) r) (ap (λ x. ok (x, r)) e)

read_number2 : (v : ℕ) (r : Bytes) → v < 65536 → read_number 2 (le_bytes 2 v ++ r) ≡ ok (v, r)
unfolding read_number le_bytes le_value
read_number2 v r h =
    let e : le_value (le_bytes 2 v) ≡ v = omega arith in
    rw (read_bytes-append (le_bytes 2 v) r) (ap (λ x. ok (x, r)) e)

pub read_key-append : (k r : Bytes) (x : Error) → length k ≡ 4 → read_key k x (k ++ r) ≡ ok r
unfolding read_key
read_key-append k r x h =
    let t : take 4 (k ++ r) ≡ k = ap (λ n. take n (k ++ r)) (sym h) ∙ take-append k r in
    let d : drop 4 (k ++ r) ≡ r = ap (λ n. drop n (k ++ r)) (sym h) ∙ drop-append k r in
    rw (t, d, bytes_eq_refl k) refl

-- The entries that the format can hold.
pub record IsStored (e : CacheEntry) : Type 0 where
  pub named : 1 ≤ length e.name
  pub short_name : length e.name ≤ 300
  pub typed : e.type < 65536
  pub dated : e.deadline < 9223372036854775808
  pub headed : 12 ≤ length e.response
  pub short_response : length e.response ≤ max_size

-- The parts of an entry in front of the rest of the file.
entry_parts :
    (e : CacheEntry) (r : Bytes)
    → entry_body e ++ r
      ≡ le_bytes 8 (length e.name)
        ++ (e.name
            ++ (le_bytes 2 e.type
                ++ (le_bytes 8 e.deadline
                    ++ (codes "dns:" ++ (le_bytes 8 (length e.response) ++ (e.response ++ r))))))
unfolding entry_body
entry_parts e r = simp append_assoc

pub read_entry-body :
    (e : CacheEntry) (r : Bytes) → IsStored e → read_entry (entry_body e ++ r) ≡ ok (e, r)
unfolding read_entry
read_entry-body e r v =
    let g1 : (leb 1 (length e.name) && leb (length e.name) 300) ≡ true = ground arith in
    let g2 : (leb 12 (length e.response) && leb (length e.response) max_size) ≡ true =
      ground arith in
    let g3 : deadline_value e.deadline ≡ e.deadline = ground arith in
    let r4 = e.response ++ r in
    let r3 = le_bytes 8 (length e.response) ++ r4 in
    let r2 = codes "dns:" ++ r3 in
    let r1 = le_bytes 8 e.deadline ++ r2 in
    let r0 = le_bytes 2 e.type ++ r1 in
    rw
      (
        entry_parts e r,
        read_number8 (length e.name) (e.name ++ r0) (omega arith),
        g1,
        read_bytes-append e.name r0,
        read_number2 e.type r1 v.typed,
        read_number8 e.deadline r2 (omega arith),
        read_key-append (codes "dns:") r3 corrupt_cache refl,
        read_number8 (length e.response) r4 (omega arith),
        g2,
        read_bytes-append e.response r,
        g3,
      )
      refl

insert_entry-Absent :
    (e : CacheEntry) (es : List CacheEntry) → Absent e es → insert_entry e es ≡ es ++ e ∷ []
unfolding insert_entry lookup_entry
insert_entry-Absent e [] h = refl
insert_entry-Absent e (x ∷ es) h = ground (arith, insert_entry-Absent e es)

lookup-none :
    (name : Bytes) (type : ℕ) (xs : List CacheEntry) (e : CacheEntry) (ys : List CacheEntry)
    → lookup_entry name type (xs ++ e ∷ ys) ≡ none
    → same_key name type e ≡ false
unfolding lookup_entry
lookup-none name type [] e ys h = ground arith
lookup-none name type (x ∷ xs) e ys h = ground (arith, lookup-none name type xs e ys)

Distinct-Absent :
    (xs : List CacheEntry) (e : CacheEntry) (ys : List CacheEntry)
    → Distinct (xs ++ e ∷ ys)
    → Absent e xs
unfolding Distinct lookup_entry
Distinct-Absent [] e ys d = refl
Distinct-Absent (x ∷ xs) e ys d =
    let rest = Distinct-Absent xs e ys d.1 in
    let apart = lookup-none x.name x.type xs e ys d.0 in
    let other : same_key e.name e.type x ≡ false = same_key_comm e x ∙ apart in rw other rest

pub length-print_entry : (e : CacheEntry) → 0 < length (print_entry e)
unfolding print_entry
length-print_entry e = omega (arith, length-append (codes "entr") (entry_body e))

-- One round of the loop, at an entry.
pub load_entries-cons :
    (fuel nq n : ℕ) (e : CacheEntry) (r : Bytes) (c : Cache)
    → IsStored e
    → n + 1 ≤ nq
    → load_entries (suc fuel) nq n (print_entry e ++ r) c
      ≡ load_entries fuel nq (n + 1) r (record c { entries = insert_entry e c.entries })
unfolding load_entries print_entry
load_entries-cons fuel nq n e r c v le =
    let long : ltb (length ((codes "entr" ++ entry_body e) ++ r)) 4 ≡ false = omega (
      tests,
      length-append (codes "entr" ++ entry_body e) r,
      length-append (codes "entr") (entry_body e),
    ) in
    let room : ltb nq (n + 1) ≡ false = omega tests in
    let key = read_key-append (codes "entr") (entry_body e ++ r) corrupt_cache refl in
    rw (long, append_assoc (codes "entr") (entry_body e) r, key, read_entry-body e r v, room) refl

load_entries-print_entries :
    (fuel nq n : ℕ) (es : List CacheEntry) (c : Cache)
    → length (print_entries es) < fuel
    → n + length es ≤ nq
    → All IsStored es
    → Distinct (c.entries ++ es)
    → load_entries fuel nq n (print_entries es) c ≡ ok (record c { entries = c.entries ++ es })
unfolding print_entries
load_entries-print_entries zero nq n es c lt le v d = absurd (omega arith)
load_entries-print_entries (suc fuel) nq n [] c lt le v d =
    unfold load_entries in (ap (λ x. ok (record c { entries = x })) (sym (append-nil c.entries)))
load_entries-print_entries (suc fuel) nq n (e ∷ es) c lt le v d =
    let c' = record c { entries = insert_entry e c.entries } in
    let added = insert_entry-Absent e c.entries (Distinct-Absent c.entries e es d) in
    let same : insert_entry e c.entries ++ es ≡ c.entries ++ e ∷ es =
      ap (λ x. x ++ es) added ∙ append_assoc c.entries (e ∷ []) es in
    let n1 = length-append (print_entry e) (print_entries es) in
    load_entries-cons fuel nq n e (print_entries es) c v.0 (omega arith)
    ∙ load_entries-print_entries fuel nq (n + 1) es c' (omega (arith, n1, length-print_entry e))
        (omega arith) v.1 (subst Distinct (sym same) d)
    ∙ ap (λ x. ok (record c { entries = x })) same

-- In the model, where the set is a list, the entries even keep their order.
load_file-save_as_list :
    (c : Cache) (minttl : ℕ)
    → Distinct c.entries
    → All IsStored c.entries
    → length c.entries < 18446744073709551616
    → load_file minttl (save_as c) ≡ ok (record { entries = c.entries; min_ttl = minttl })
unfolding load_file save_as
load_file-save_as_list c minttl d v small =
    let es = c.entries in
    let r3 = print_entries es in
    let r2 = le_bytes 8 (length es) ++ r3 in
    let r1 = codes "size" ++ r2 in
    let r0 = le_bytes 4 magick ++ r1 in
    let loaded =
      load_entries-print_entries (suc (length r3)) (length es) 0 es (new_cache minttl) (omega arith)
        (omega arith) v d in
    let enough : ltb (length es) (length es) ≡ false = omega tests in
    rw
      (
        read_key-append (codes "mgck") r0 wrong_magick refl,
        read_number4 magick r1 (omega arith),
        read_key-append (codes "size") r2 wrong_magick refl,
        read_number8 (length es) r3 small,
        loaded,
        enough,
      )
      refl

-- A cache with no key twice, whose entries have names of 1 to 300 bytes, types of 16 bits, deadlines
-- below 2 ^ 63 and messages of 12 to `max_size` bytes, and fewer than 2 ^ 64 entries, whatever their
-- order: the file that `save_as` writes is loaded as a cache with as many entries, which has for every
-- name and type the entry that the cache had, if it had one, and no key twice, and with the smallest
-- time to live that `load` is given.
pub load_file-save_as :
    (c : Cache) (minttl : ℕ)
    → Distinct c.entries
    → All IsStored c.entries
    → length c.entries < 18446744073709551616
    → (c' : Cache) × (load_file minttl (save_as c) ≡ ok c')
      × ((name : Bytes) (type : ℕ)
          → lookup_entry name type c'.entries ≡ lookup_entry name type c.entries)
      × Distinct c'.entries
      × (length c'.entries ≡ length c.entries)
      × (c'.min_ttl ≡ minttl)
load_file-save_as c minttl d v small = (
  record { entries = c.entries; min_ttl = minttl },
  load_file-save_as_list c minttl d v small,
  λ name type. refl,
  d,
  refl,
  refl,
)

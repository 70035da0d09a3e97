-- ===== src/Dns/Cache/File/Nameless.antt =====
-- A file with an entry that has an empty name, which an answer with a question for the root leaves.
use cdns.Dns.Cache.{CacheEntry, Cache, new_cache, insert_entry}
use cdns.Dns.Cache.File.{
  le_bytes, magick, entry_body, print_entry, print_entries, save_as, read_entry, load_entries,
  load_file,
}
use cdns.Dns.Cache.File.RoundTrip.{
  read_number8, read_number4, read_key-append, IsStored, length-print_entry, load_entries-cons,
}
use cdns.Prelude.{
  ltb, tests, Bytes, codes, length, length-append, All, wrong_magick, corrupt_cache, err, ℕ, zero,
  suc, ◌+◌, ◌≤◌, ◌<◌, ◌≡◌, refl, ap, ◌∙◌, false, List, [], ◌∷◌, ◌++◌, append_assoc, arith,
}

read_entry_nameless :
    (e : CacheEntry) (r : Bytes) → e.name ≡ [] → read_entry (entry_body e ++ r) ≡ err corrupt_cache
unfolding read_entry entry_body
read_entry_nameless e r blank =
    let n : length e.name ≡ 0 = ap length blank in
    let rest =
      e.name
      ++ (le_bytes 2 e.type
          ++ (le_bytes 8 e.deadline
              ++ (codes "dns:" ++ (le_bytes 8 (length e.response) ++ e.response)))) in
    rw
      (
        append_assoc (le_bytes 8 (length e.name)) rest r,
        read_number8 (length e.name) (rest ++ r) (omega arith),
        n,
      )
      refl

-- The round of the loop at the entry.
load_entries_nameless :
    (fuel nq n : ℕ) (e : CacheEntry) (r : Bytes) (c : Cache)
    → e.name ≡ []
    → load_entries (suc fuel) nq n (print_entry e ++ r) c ≡ err corrupt_cache
unfolding load_entries print_entry
load_entries_nameless fuel nq n e r c blank =
    let long : ltb (length ((codes "entr" ++ entry_body e) ++ r)) 4 ≡ false = omega (
      tests,
      length-append (codes "entr" ++ entry_body e) r,
      length-append (codes "entr") (entry_body e),
    ) in
    let key = read_key-append (codes "entr") (entry_body e ++ r) corrupt_cache refl in
    rw (long, append_assoc (codes "entr") (entry_body e) r, key, read_entry_nameless e r blank) refl

load_entries_corrupt :
    (fuel nq n : ℕ) (xs : List CacheEntry) (e : CacheEntry) (ys : List CacheEntry) (c : Cache)
    → length (print_entries (xs ++ e ∷ ys)) < fuel
    → n + length xs ≤ nq
    → All IsStored xs
    → e.name ≡ []
    → load_entries fuel nq n (print_entries (xs ++ e ∷ ys)) c ≡ err corrupt_cache
unfolding print_entries
load_entries_corrupt zero nq n xs e ys c lt le v blank = absurd (omega arith)
load_entries_corrupt (suc fuel) nq n [] e ys c lt le v blank =
    load_entries_nameless fuel nq n e (print_entries ys) c blank
load_entries_corrupt (suc fuel) nq n (x ∷ xs) e ys c lt le v blank =
    let n1 = length-append (print_entry x) (print_entries (xs ++ e ∷ ys)) in
    load_entries-cons fuel nq n x (print_entries (xs ++ e ∷ ys)) c v.0 (omega arith)
    ∙ load_entries_corrupt fuel nq (n + 1) xs e ys (record c { entries = insert_entry x c.entries })
        (omega (arith, n1, length-print_entry x)) (omega arith) v.1 blank

-- A cache, of fewer than 2 ^ 64 entries, that holds an entry with an empty name, behind entries
-- that the format can hold: the file that `save_as` writes is refused as corrupt by `load`.
pub load_file_nameless :
    (xs : List CacheEntry) (e : CacheEntry) (ys : List CacheEntry) (min_ttl minttl : ℕ)
    → All IsStored xs
    → e.name ≡ []
    → length (xs ++ e ∷ ys) < 18446744073709551616
    → load_file minttl (save_as (record { entries = xs ++ e ∷ ys; min_ttl = min_ttl }))
      ≡ err corrupt_cache
unfolding load_file save_as
load_file_nameless xs e ys min_ttl minttl v blank small =
    let es = xs ++ e ∷ ys in
    let r3 = print_entries es in
    let r2 = le_bytes 8 (length es) ++ r3 in
    let r1 = codes "size" ++ r2 in
    let r0 = le_bytes 4 magick ++ r1 in
    let corrupt =
      load_entries_corrupt (suc (length r3)) (length es) 0 xs e ys (new_cache minttl) (omega arith)
        (omega (arith, length-append xs (e ∷ ys))) v blank in
    rw
      (
        read_key-append (codes "mgck") r0 wrong_magick refl,
        read_number4 magick r1 (omega arith),
        read_key-append (codes "size") r2 wrong_magick refl,
        read_number8 (length es) r3 small,
        corrupt,
      )
      refl

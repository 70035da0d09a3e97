-- ===== src/Dns/Cache/Fetch.antt =====
-- What is stored is found again, and garbage collection does not show.
use native.Mathlib.Nat.{le_of_eq}
use cdns.Dns.Cache.{
  CacheEntry, Cache, default_max_ttl, same_key, find, replace_entry, is_cacheable, clamp_ttl,
  store_answer, store, query_of, answer_of, retrieve, collect_garbage,
}
use cdns.Dns.Cache.Kept.{
  entry, find-replace_entry, replace_entry-Distinct, unless_over, lookup-collect_garbage,
  collect_garbage-Distinct,
}
use cdns.Dns.Cache.Keys.{Distinct}
use cdns.Dns.Constants.{max_size, header_size, class_internet}
use cdns.Dns.Header.{header}
use cdns.Dns.Header.Laws.{IsMemory, header-IsHeader, header-local}
use cdns.Dns.Record.{RrHeader, Rr, Question, get_question}
use cdns.Dns.Record.Local.{get_rrs-local, skip_questions-local}
use cdns.Dns.Ttl.{no_header, record_count, answer_min_ttl, adjust_id_and_ttl}
use cdns.Dns.Ttl.Adjust.{retime, Reads, adjust_id_and_ttl_lem}
use cdns.Network.Packet.{Packet, IsPacket, from_bytes, reserve, contents}
use cdns.Prelude.{
  ◌==◌, Bool-cases, Bytes, bytes_eq_iff, length-slice, of_list-slice, length, Error, Result, ok,
  err, Result-cases, >>=-eq-ok, ℕ, ◌+◌, ◌-◌, ◌%◌, ◌≤◌, ◌<◌, ◌≡◌, refl, sym, ap, ◌∙◌, subst, inl,
  inr, true, Option, none, some, List, map, arith,
}
use cdns.Sys.Ascii.{
  ascii_tolower_copy, equal, ascii_strcasecmp, tolower_copy_idem, strcasecmp-equal_iff,
}

-- The bounds of the time to live that is kept, for a smallest one below a day.
pub clamp_ttl_bounds :
    (low ttl : ℕ)
    → low ≤ default_max_ttl
    → ttl < 4294967296
    → (low ≤ clamp_ttl low ttl) × (clamp_ttl low ttl ≤ default_max_ttl)
unfolding clamp_ttl
clamp_ttl_bounds low ttl h r = ground arith

-- What `retrieve` makes of what is found.
unfoldable fetched : ℕ → ℕ → Option CacheEntry → Result (Option Packet)
fetched now tid none = ok none
fetched now tid (some e) = answer_of now tid e

retrieve-fetched :
    (now : ℕ) (q : Packet) (c : Cache) {asked : Question}
    → get_question q ≡ ok asked
    → retrieve now q c ≡ fetched now (header q).id (find asked.owner asked.type c)
unfolding retrieve fetched
retrieve-fetched now q c {asked} e = rw e refl

retrieve_err :
    (now : ℕ) (q : Packet) (c : Cache) {x : Error}
    → get_question q ≡ err x
    → retrieve now q c ≡ err x
unfolding retrieve
retrieve_err now q c e = rw e refl

find-collect_garbage :
    (now : ℕ) (name : Bytes) (t : ℕ) (c : Cache)
    → Distinct c.entries
    → find name t (collect_garbage now c) ≡ unless_over now (find name t c)
unfolding find
find-collect_garbage now name t c d =
    lookup-collect_garbage now (ascii_tolower_copy name) (t % 65536) c.entries d

fetched-unless_over :
    (now later tid : ℕ) (f : Option CacheEntry)
    → now ≤ later
    → fetched later tid (unless_over now f) ≡ fetched later tid f
unfolding fetched answer_of
fetched-unless_over now later tid none le = refl
fetched-unless_over now later tid (some e) le = ground arith

-- In a cache with no key twice, collecting the garbage changes no answer that `retrieve` gives at
-- that time or later, and leaves no key twice.
pub retrieve-collect_garbage :
    (now later : ℕ) (q : Packet) (c : Cache)
    → Distinct c.entries
    → now ≤ later
    → (retrieve later q (collect_garbage now c) ≡ retrieve later q c)
      × Distinct (collect_garbage now c).entries
retrieve-collect_garbage now later q c d le = (
  elim (Result-cases (get_question q)) [
    | inl (asked, e) ↦
        retrieve-fetched later q (collect_garbage now c) e
        ∙ ap (fetched later (header q).id) (find-collect_garbage now asked.owner asked.type c d)
        ∙ fetched-unless_over now later (header q).id (find asked.owner asked.type c) le
        ∙ sym (retrieve-fetched later q c e)
    | inr (x, e) ↦ retrieve_err later q (collect_garbage now c) e ∙ sym (retrieve_err later q c e)
  ],
  collect_garbage-Distinct now c.entries d,
)

-- The message that is read back from the bytes that are kept.
query_of-same :
    (p : Packet) (i : ℕ)
    → p.size ≤ max_size
    → i < p.size
    → (query_of (contents p)).bytes i ≡ p.bytes i
unfolding query_of reserve from_bytes
query_of-same p i s h =
    let n = length-slice p.bytes 0 p.size in ground (arith, of_list-slice p.bytes p.size i h)

query_of-size : (p : Packet) → (query_of (contents p)).size ≡ p.size
unfolding query_of reserve from_bytes
query_of-size p = length-slice p.bytes 0 p.size

query_of-IsPacket : (p : Packet) → p.size ≤ max_size → IsPacket (query_of (contents p))
unfolding query_of reserve from_bytes
query_of-IsPacket p s = omega (arith, length-slice p.bytes 0 p.size)

query_of-IsMemory : (p : Packet) → IsMemory p.bytes → IsMemory (query_of (contents p)).bytes
unfolding query_of reserve from_bytes
query_of-IsMemory p m i =
    ground (arith, length-slice p.bytes 0 p.size, of_list-slice p.bytes p.size i, m i)

query_of-Reads :
    (p : Packet) (off : ℕ) (last : RrHeader) (rs : List Rr)
    → IsPacket p
    → p.size ≤ max_size
    → 12 ≤ p.size
    → off ≤ p.size
    → Reads p off last rs
    → (header (query_of (contents p)) ≡ header p) × Reads (query_of (contents p)) off last rs
query_of-Reads p off last rs v s long inside reads =
    let p1 = query_of (contents p) in
    let v1 = query_of-IsPacket p s in
    let size : p.size ≤ p1.size = le_of_eq (sym (query_of-size p)) in
    let h : header p1 ≡ header p = header-local p1 p (λ i lt. query_of-same p i s (omega arith)) in
    let q =
      skip_questions-local (header p).qdcount header_size no_header p p1 v size reads.questions
        (λ i le lt. sym (query_of-same p i s (omega arith))) in
    let r =
      get_rrs-local (record_count (header p)) off p p1 v v1 size reads.records
        (λ i le lt. sym (query_of-same p i s lt)) in
    (h, record { questions = rw h q.0; records = rw h r })

-- What `store` leaves in the cache.
store_run :
    (now : ℕ) (p : Packet) (c : Cache) {asked : Question} {ttl : ℕ}
    → is_cacheable p ≡ true
    → get_question p ≡ ok asked
    → asked.class ≡ 1
    → answer_min_ttl p ≡ ok ttl
    → store now p c
      ≡ ok (
          replace_entry now
            (ascii_tolower_copy asked.owner)
            (contents p)
            (clamp_ttl c.min_ttl ttl)
            asked.type
            c)
unfolding store store_answer
store_run now p c {asked} k q class t = rw (k, q, class, t) refl

replace_entry-min_ttl :
    (now : ℕ) (host wire : Bytes) (ttl type : ℕ) (c : Cache)
    → (replace_entry now host wire ttl type c).min_ttl ≡ c.min_ttl
unfolding replace_entry
replace_entry-min_ttl now host wire ttl type c = ground arith

store_answer_lem :
    (now : ℕ) (p : Packet) (asked : Question) (c : Cache) {c' : Cache}
    → Distinct c.entries
    → store_answer now p asked c ≡ ok c'
    → Distinct c'.entries × (c'.min_ttl ≡ c.min_ttl)
unfolding store_answer
store_answer_lem now p asked c {c'} d e =
    let (ttl, f, g) = >>=-eq-ok (answer_min_ttl p) _ e in
    let host = ascii_tolower_copy asked.owner in
    let left = replace_entry now host (contents p) (clamp_ttl c.min_ttl ttl) asked.type c in
    let same : left ≡ c' = cc (g) in
    subst (λ k. Distinct k.entries × (k.min_ttl ≡ c.min_ttl)) same
      (
        replace_entry-Distinct now host (contents p) (clamp_ttl c.min_ttl ttl) asked.type c
            (tolower_copy_idem asked.owner) d,
        replace_entry-min_ttl now host (contents p) (clamp_ttl c.min_ttl ttl) asked.type c,
      )

-- Storing a message in a cache with no key twice, when it succeeds, leaves no key twice, and the
-- smallest time to live of the cache as it was.
pub store-Distinct :
    (now : ℕ) (p : Packet) (c : Cache) {c' : Cache}
    → Distinct c.entries
    → store now p c ≡ ok c'
    → Distinct c'.entries × (c'.min_ttl ≡ c.min_ttl)
unfolding store
store-Distinct now p c {c'} d e = elim (Bool-cases (is_cacheable p)) [
  | inr skip ↦ unchanged (rw (store, skip) at e)
  | inl keep ↦
      let (asked, f, g) = >>=-eq-ok (get_question p) _ (rw (store, keep) at e) in
      elim (Bool-cases (asked.class == class_internet)) [
        | inl internet ↦ store_answer_lem now p asked c d (rw internet at g)
        | inr other ↦ unchanged (rw other at g)
      ]
]
  where
    unchanged : ok c ≡ ok c' → Distinct c'.entries × (c'.min_ttl ≡ c.min_ttl)
    unchanged h =
        let same : c ≡ c' = cc (h) in
        subst (λ k. Distinct k.entries × (k.min_ttl ≡ c.min_ttl)) same (d, refl)

-- The entry is young enough and small enough.
fetched-young :
    (now tid : ℕ) (e : CacheEntry) {a : Packet}
    → length e.response ≤ max_size
    → now < e.deadline
    → adjust_id_and_ttl tid ((e.deadline - now) % 4294967296) (query_of e.response) ≡ ok a
    → fetched now tid (some e) ≡ ok (some a)
unfolding answer_of fetched
fetched-young now tid e small young f = rw f (ground arith)

-- For a message of at most `max_size` bytes that `store` takes as cacheable, whose question, of
-- the class `internet`, and records can be read, and for which `answer_min_ttl` gives a time to
-- live: storing it succeeds. From then on, as long as the time of storing plus that time to
-- live, clamped by `clamp_ttl`, is not reached, `retrieve` gives an answer to every question for
-- that type and that name, whatever the case of its letters. The answer has the header that was
-- stored but for the identifier, which is that of the new question, the same questions, and the
-- same records, each with the time that is left but for the pseudo record OPT; and it is well
-- formed.
pub retrieve-store :
    (now later : ℕ) (p q : Packet) (c : Cache) (asked again : Question) (ttl off : ℕ)
    (last : RrHeader) (rs : List Rr)
    → IsPacket p
    → IsMemory p.bytes
    → p.size ≤ max_size
    → 12 ≤ p.size
    → off ≤ p.size
    → Reads p off last rs
    → is_cacheable p ≡ true
    → get_question p ≡ ok asked
    → asked.class ≡ 1
    → answer_min_ttl p ≡ ok ttl
    → IsMemory q.bytes
    → get_question q ≡ ok again
    → again.type ≡ asked.type
    → ascii_strcasecmp again.owner asked.owner ≡ equal
    → now ≤ later
    → later < now + clamp_ttl c.min_ttl ttl
    → (c' : Cache) × (a : Packet) × (store now p c ≡ ok c')
      × (retrieve later q c' ≡ ok (some a))
      × (header a ≡ record (header p) { id = (header q).id })
      × Reads a off last (map (retime ((now + clamp_ttl c.min_ttl ttl - later) % 4294967296)) rs)
      × IsPacket a
retrieve-store now later p q c asked again ttl off last rs v m small long inside reads keep question
      class low mq question' typ name le young =
    let host = ascii_tolower_copy asked.owner in
    let deadline = clamp_ttl c.min_ttl ttl in
    let n = entry now host (contents p) deadline asked.type in
    let c' = replace_entry now host (contents p) deadline asked.type c in
    let key : ascii_tolower_copy again.owner ≡ host =
      (strcasecmp-equal_iff again.owner asked.owner).0 name in
    let (h1, reads1) = query_of-Reads p off last rs v small long inside reads in
    let tid = header-IsHeader q mq in
    let (a, run, ha, ra, va, _) =
      adjust_id_and_ttl_lem (header q).id ((n.deadline - later) % 4294967296)
        (query_of (contents p)) off last rs (query_of-IsPacket p small) (query_of-IsMemory p m)
        (omega (arith, tid)) (omega arith) reads1 in
    let same : same_key (ascii_tolower_copy again.owner) (again.type % 65536) n ≡ true =
      ground (arith, bytes_eq_iff host (ascii_tolower_copy again.owner)) in
    let found : find again.owner again.type c' ≡ some n =
      find-replace_entry now host (contents p) deadline asked.type c again.owner again.type
        (tolower_copy_idem asked.owner)
      ∙ rw same refl in
    let small' : length (contents p) ≤ max_size = omega (arith, length-slice p.bytes 0 p.size) in
    let fetch =
      retrieve-fetched later q c' question'
      ∙ ap (fetched later (header q).id) found
      ∙ fetched-young later (header q).id n small' young run in
    (c', a, store_run now p c keep question class low, fetch, rw h1 at ha, ra, va)

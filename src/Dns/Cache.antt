-- ===== src/Dns/Cache.antt =====
-- dns/srcz/cache.cpp and dns/cache.hxx. The hash set is a list of entries with no key twice; the time of
-- `std::time` is an argument of each operation. A deadline is a number, since no time to live
-- that is stored is negative.
pub mod Keys
pub mod Kept
pub mod Fetch
pub mod File
use cdns.Dns.Constants.{max_size, class_internet}
use cdns.Dns.Header.{has_bit, header}
use cdns.Dns.Record.{Question, get_question}
use cdns.Dns.Ttl.{slt32, answer_min_ttl, adjust_id_and_ttl}
use cdns.Network.Packet.{Packet, from_bytes, reserve, contents}
use cdns.Prelude.{
  ltb, leb, ◌==◌, if◌then◌else◌, Bytes, bytes_eq, length, Result, ok, ◌>>=◌, ℕ, ◌+◌, ◌-◌, ◌%◌, Bool,
  not, ◌&&◌, ◌||◌, Option, none, some, List, [], ◌∷◌,
}
use cdns.Sys.Ascii.{ascii_tolower_copy}

pub record CacheEntry : Type 0 where
  pub name : Bytes
  pub type : ℕ
  pub deadline : ℕ
  pub response : Bytes

pub record Cache : Type 0 where
  pub entries : List CacheEntry
  pub min_ttl : ℕ

-- `cache (minttl)`
abbrev pub new_cache : ℕ → Cache
new_cache minttl = record { entries = []; min_ttl = minttl }

-- `defaults::max_ttl()`
abbrev pub default_max_ttl : ℕ
default_max_ttl = 86400

abbrev pub same_key : Bytes → ℕ → CacheEntry → Bool
same_key name type e = bytes_eq e.name name && e.type == type

unfoldable pub lookup_entry : Bytes → ℕ → List CacheEntry → Option CacheEntry
lookup_entry name type [] = none
lookup_entry name type (e ∷ es) = if same_key name type e then some e else lookup_entry name type es

-- `cache::find`
unfoldable pub find : Bytes → ℕ → Cache → Option CacheEntry
find qname qtype c = lookup_entry (ascii_tolower_copy qname) (qtype % 65536) c.entries

-- The assignment through the pointer that `find` returns.
unfoldable pub update_entry : CacheEntry → List CacheEntry → List CacheEntry
update_entry n [] = []
update_entry n (e ∷ es) = if same_key n.name n.type e then n ∷ es else e ∷ update_entry n es

-- `std::unordered_set::insert`: an entry with a key that is there is not inserted. The order of the list
-- stands for no order of the set.
unfoldable pub insert_entry : CacheEntry → List CacheEntry → List CacheEntry
insert_entry n [] = n ∷ []
insert_entry n (e ∷ es) = if same_key n.name n.type e then e ∷ es else e ∷ insert_entry n es

-- `cache::replace_entry`
unfoldable pub replace_entry : ℕ → Bytes → Bytes → ℕ → ℕ → Cache → Cache
replace_entry now wire_qname wire_data ttl qtype c = elim (find wire_qname qtype c) [
  | some e ↦ record c {
    entries = update_entry (record e { response = wire_data; deadline = now + ttl }) c.entries;
  }
  | none ↦ record c {
    entries =
        insert_entry
          (record {
            name = wire_qname;
            type = qtype % 65536;
            deadline = now + ttl;
            response = wire_data;
          })
          c.entries;
  }
]

-- `! (((ub[2] & 2) != 0) || ((ub[3] & 0xf) != 0 && (ub[3] & 0xf) != 3))`
unfoldable pub is_cacheable : Packet → Bool
is_cacheable p =
    not (has_bit (p.bytes 2) 2 || (not (p.bytes 3 % 16 == 0) && not (p.bytes 3 % 16 == 3)))

-- `std::min (max_ttl, std::max (answer_min_ttl, min_ttl))` on 32-bit numbers.
unfoldable pub clamp_ttl : ℕ → ℕ → ℕ
clamp_ttl min_ttl ttl =
    let m = if slt32 ttl min_ttl then min_ttl else ttl in
    if slt32 m default_max_ttl then m else default_max_ttl

-- The part of `cache::store` for a question of the class `internet`.
unfoldable pub store_answer : ℕ → Packet → Question → Cache → Result Cache
store_answer now p q c = do
  ttl ← answer_min_ttl p
  let host = ascii_tolower_copy q.owner
  ok (replace_entry now host (contents p) (clamp_ttl c.min_ttl ttl) q.type c)

-- `cache::store`
unfoldable pub store : ℕ → Packet → Cache → Result Cache
store now p c =
    let kept =
      (get_question p >>= λ q.
      if q.class == class_internet then store_answer now p q c else ok c) in
    if is_cacheable p then kept else ok c

-- `query (b, l)`: the bytes, in a vector of the largest size.
unfoldable pub query_of : Bytes → Packet
query_of xs = reserve max_size (from_bytes xs)

-- The answer of an entry to a question with the identifier `tid`, if the entry is small and young
-- enough.
unfoldable pub answer_of : ℕ → ℕ → CacheEntry → Result (Option Packet)
answer_of now tid e =
    let answer =
      (adjust_id_and_ttl tid ((e.deadline - now) % 4294967296) (query_of e.response) >>= λ a.
      ok (some a)) in
    if leb (length e.response) max_size && ltb now e.deadline then answer else ok none

-- `cache::retrieve`: the answer, if there is one. The identifier is that of the question.
unfoldable pub retrieve : ℕ → Packet → Cache → Result (Option Packet)
retrieve now p c = do
  q ← get_question p
  elim (find q.owner q.type c) [ none ↦ ok none | some e ↦ answer_of now (header p).id e ]

-- `cache::collect_garbage`
unfoldable pub collect_garbage_list : ℕ → List CacheEntry → List CacheEntry
collect_garbage_list now [] = []
collect_garbage_list now (e ∷ es) =
    let rest = collect_garbage_list now es in if ltb e.deadline now then rest else e ∷ rest

abbrev pub collect_garbage : ℕ → Cache → Cache
collect_garbage now c = record c { entries = collect_garbage_list now c.entries }

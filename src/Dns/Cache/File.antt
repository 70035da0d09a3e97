-- ===== src/Dns/Cache/File.antt =====
-- dns/srcz/cache.cpp, `cache::save_as` and `cache::load`: the file of the cache on a machine with
-- 64-bit sizes and times, the lowest byte first. A key that is cut short by the end of the file is no key;
-- in the source its missing bytes are undefined, and the next read fails. A deadline that is negative is
-- read as 0, which is as far in the past.
pub mod RoundTrip
pub mod Nameless
use cdns.Dns.Cache.{CacheEntry, Cache, new_cache, insert_entry}
use cdns.Dns.Constants.{max_size}
use cdns.Prelude.{
  ltb, leb, ◌==◌, if◌then◌else◌, Bytes, codes, bytes_eq, length, take, drop, Error, out_of_fuel,
  wrong_file, wrong_magick, corrupt_cache, too_many_entries, too_few_entries, Result, err, ok,
  guard, ◌>>=◌, ◌>>◌, ℕ, zero, suc, ◌+◌, ◌*◌, ◌/◌, ◌%◌, not, ◌&&◌, List, [], ◌∷◌, ◌++◌,
}

-- The `n` bytes of a number.
unfoldable pub le_bytes : ℕ → ℕ → Bytes
le_bytes zero v = []
le_bytes (suc n) v = v % 256 ∷ le_bytes n (v / 256)

unfoldable pub le_value : Bytes → ℕ
le_value [] = 0
le_value (b ∷ bs) = b + 256 * le_value bs

abbrev pub magick : ℕ
magick = 1023456789

-- One entry of the loop of `save_as`, behind its key.
unfoldable pub entry_body : CacheEntry → Bytes
entry_body e =
    le_bytes 8 (length e.name)
    ++ (e.name
        ++ (le_bytes 2 e.type
            ++ (le_bytes 8 e.deadline
                ++ (codes "dns:" ++ (le_bytes 8 (length e.response) ++ e.response)))))

unfoldable pub print_entry : CacheEntry → Bytes
print_entry e = codes "entr" ++ entry_body e

unfoldable pub print_entries : List CacheEntry → Bytes
print_entries [] = []
print_entries (e ∷ es) = print_entry e ++ print_entries es

-- `cache::save_as`, into a file that can be written.
unfoldable pub save_as : Cache → Bytes
save_as c =
    codes "mgck"
    ++ (le_bytes 4 magick
        ++ (codes "size" ++ (le_bytes 8 (length c.entries) ++ print_entries c.entries)))

-- `crd (ifile, d, s)`
unfoldable pub read_bytes : ℕ → Bytes → Result (Bytes × Bytes)
read_bytes n s = if leb n (length s) then ok (take n s, drop n s) else err wrong_file

-- `crd <T> (ifile)`
unfoldable pub read_number : ℕ → Bytes → Result (ℕ × Bytes)
read_number n s = do r ← read_bytes n s; ok (le_value r.0, r.1)

-- `crd <4> (ifile) != key`
unfoldable pub read_key : Bytes → Error → Bytes → Result Bytes
read_key key x s = if bytes_eq (take 4 s) key then ok (drop 4 s) else err x

-- `crd <std::time_t>`
abbrev pub deadline_value : ℕ → ℕ
deadline_value v = if ltb v 9223372036854775808 then v else 0

-- The body of the loop of `load`, behind the key.
unfoldable pub read_entry : Bytes → Result (CacheEntry × Bytes)
read_entry s = do
  l ← read_number 8 s
  guard (leb 1 l.0 && leb l.0 300) corrupt_cache
  name ← read_bytes l.0 l.1
  qtype ← read_number 2 name.1
  deadline ← read_number 8 qtype.1
  body ← read_key (codes "dns:") corrupt_cache deadline.1
  k ← read_number 8 body
  guard (leb 12 k.0 && leb k.0 max_size) corrupt_cache
  response ← read_bytes k.0 k.1
  ok (
    record {
      name = name.0;
      type = qtype.0;
      deadline = deadline_value deadline.0;
      response = response.0;
    },
    response.1,
  )

-- The loop, with the number of entries in the header and so far, on fuel.
unfoldable pub load_entries : ℕ → ℕ → ℕ → Bytes → Cache → Result Cache
load_entries zero nq n s c = err out_of_fuel
load_entries (suc fuel) nq n s c =
    let more =
      (read_key (codes "entr") corrupt_cache s >>= λ body. read_entry body >>= λ e.
      let rest =
        load_entries fuel nq (n + 1) e.1 (record c { entries = insert_entry e.0 c.entries }) in
      if ltb nq (n + 1) then err too_many_entries else rest) in
    if ltb (length s) 4 then ok c else more

-- `cache::load`, from a file that can be read.
unfoldable pub load_file : ℕ → Bytes → Result Cache
load_file minttl s = do
  a ← read_key (codes "mgck") wrong_magick s
  m ← read_number 4 a
  guard (m.0 == magick) wrong_magick
  b ← read_key (codes "size") wrong_magick m.1
  nq ← read_number 8 b
  c ← load_entries (suc (length nq.1)) nq.0 0 nq.1 (new_cache minttl)
  guard (not (ltb (length c.entries) nq.0)) too_few_entries
  ok c

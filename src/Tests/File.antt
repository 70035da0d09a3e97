-- ===== src/Tests/File.antt =====
-- The file of a cache.
use cdns.Dns.Cache.{CacheEntry, Cache, lookup_entry}
use cdns.Dns.Cache.File.{save_as, load_file}
use cdns.Dns.Cache.File.Nameless.{load_file_nameless}
use cdns.Dns.Cache.File.RoundTrip.{IsStored, load_file-save_as}
use cdns.Dns.Cache.Keys.{Distinct}
use cdns.Prelude.{Bytes, codes, slice, length, corrupt_cache, err, ok, ℕ, ◌≡◌, refl, [], ◌∷◌, arith}

abbrev stored_entry : CacheEntry
stored_entry = record {
  name = codes "host.";
  type = 1;
  deadline = 5000;
  response = slice (λ i. 7) 0 40;
}

abbrev nameless_entry : CacheEntry
nameless_entry = record { name = []; type = 1; deadline = 5000; response = slice (λ i. 7) 0 40 }

abbrev stored_cache : Cache
stored_cache = record { entries = stored_entry ∷ []; min_ttl = 60 }

stored_cache-Distinct : Distinct stored_cache.entries
unfolding Distinct lookup_entry
stored_cache-Distinct = (refl, tt)

stored_entry-IsStored : IsStored stored_entry
unfolding slice
stored_entry-IsStored = record {
  named = omega arith;
  short_name = omega arith;
  typed = omega arith;
  dated = omega arith;
  headed = omega arith;
  short_response = omega arith;
}

load_file-save_as_example :
    (c' : Cache) × (load_file 90 (save_as stored_cache) ≡ ok c')
    × ((name : Bytes) (type : ℕ)
        → lookup_entry name type c'.entries ≡ lookup_entry name type stored_cache.entries)
    × Distinct c'.entries
    × (length c'.entries ≡ 1)
    × (c'.min_ttl ≡ 90)
load_file-save_as_example =
    load_file-save_as stored_cache 90 stored_cache-Distinct (stored_entry-IsStored, tt)
      (omega arith)

load_file_nameless_example :
    load_file 90 (save_as (record { entries = stored_entry ∷ nameless_entry ∷ []; min_ttl = 60 }))
    ≡ err corrupt_cache
load_file_nameless_example =
    load_file_nameless (stored_entry ∷ []) nameless_entry [] 60 90 (stored_entry-IsStored, tt) refl
      (omega arith)

-- ===== src/Tests/Crypt.antt =====
-- Padding and certificates.
use cdns.Dns.Crypt.Certificate.{
  Certificate, undefined, version_at, data_at, cert_parse_version, cipher_of, ts, check_dates,
  new_certificate, Resolver, BeforeNm, find_valid_certificate,
}
use cdns.Dns.Crypt.Certificate.Choice.{Chosen, Uses, find_valid_certificate_lem}
use cdns.Dns.Crypt.Certificate.Parsed.{new_certificate_lem}
use cdns.Dns.Crypt.Csv.{
  csv_push, csv_quote, csv_separator, csv_step, csv_finish, csv_loop, parse_line,
}
use cdns.Dns.Crypt.Csv.Written.{plain, quoted, print_line, parse_line-print_line}
use cdns.Dns.Crypt.Padding.Bounds.{IsUniform}
use cdns.Prelude.{
  Bytes, codes, bytes_eq, slice, of_list, drop, All, csv_text_after_quote, suspicious_key, err, ok,
  ℕ, ◌%◌, ◌≤◌, ◌<◌, ◌≡◌, refl, ◌≢◌, ◌⊎◌, inr, true, false, [], ◌∷◌, ◌++◌, arith,
}

pub zero_random : IsUniform (λ n. 0)
zero_random n = omega arith

-- The bytes that are signed: a key, a magic number, the serial number 5 and the dates 10 and 90.
abbrev signed_data : Bytes
signed_data =
    slice (λ i. 3) 0 32 ++ codes "magicnum" ++ 0 ∷ 0 ∷ 0 ∷ 5 ∷ 0 ∷ 0 ∷ 0 ∷ 10 ∷ 0 ∷ 0 ∷ 0 ∷ 90 ∷ []

abbrev certificate_bytes : Bytes
certificate_bytes = codes "DNSC" ++ 0 ∷ 2 ∷ 0 ∷ 0 ∷ signed_data

-- A function in place of `crypto_sign_ed25519_open` for which all signatures are right.
abbrev open_all : Bytes → Bytes → ℕ × Bytes
open_all key signed = (0, signed)

abbrev parsed : Certificate
parsed = record {
  version_ = version_at certificate_bytes;
  data_ = data_at signed_data;
  raw_signed_ = certificate_bytes;
}

parsed_run : new_certificate open_all 50 [] certificate_bytes ≡ ok parsed
unfolding new_certificate check_dates version_at data_at slice of_list cert_parse_version bytes_eq
parsed_run = refl

new_certificate_lem_example :
    (cipher_of parsed ≢ undefined)
    × ((ts parsed).0 ≤ 50 % 4294967296)
    × (50 % 4294967296 ≤ (ts parsed).1)
    × ((ts parsed).0 < (ts parsed).1)
    × ((open_all [] (drop 8 certificate_bytes)).0 ≡ 0)
    × (parsed.data_ ≡ data_at (open_all [] (drop 8 certificate_bytes)).1)
    × (parsed.raw_signed_ ≡ certificate_bytes)
new_certificate_lem_example = new_certificate_lem open_all 50 [] certificate_bytes parsed_run

abbrev idle : Resolver
idle = record {
  pubkey_ = [];
  resolver_pubkey_ = [];
  dnscrypt_magic_query_ = [];
  ready_ = false;
  client = record {
    encryptor_magic = [];
    publickey = [];
    secretkey = [];
    nmkey = [];
    nonce_pad = [];
    cipher = undefined;
    ephemeral_keys = false;
  };
}

-- A function in place of `crypto_box_beforenm`.
abbrev join_keys : BeforeNm
join_keys cipher key secret = (0, key ++ secret)

find_valid_certificate_lem_example :
    let trv = certificate_bytes ∷ codes "junk" ∷ [] in
    let done = find_valid_certificate join_keys open_all 50 trv idle in
    let parse = new_certificate open_all 50 [] in
    ((c : Certificate) × Chosen parse c trv × (done.1 ≡ ok true) × Uses c done.0)
    ⊎ ((done.1 ≡ ok false)
        × (done.0.ready_ ≡ false)
        × All (λ x. (d : Certificate) → parse x ≢ ok d) trv)
    ⊎ ((done.1 ≡ err suspicious_key)
        × (done.0.ready_ ≡ false)
        × (idle.client.ephemeral_keys ≡ false))
find_valid_certificate_lem_example =
    find_valid_certificate_lem join_keys open_all 50 (certificate_bytes ∷ codes "junk" ∷ []) idle

parse_line-print_line_example :
    parse_line (print_line (plain (codes "ab")) (quoted (codes "c,d") ∷ []) (codes "rest"))
    ≡ ok (codes "ab" ∷ codes "c,d" ∷ [], codes "rest")
parse_line-print_line_example =
    parse_line-print_line (plain (codes "ab")) (quoted (codes "c,d") ∷ []) (codes "rest")
      (ground arith, omega arith) ((ground arith, omega arith), tt) (inr two)
  where
    two : quoted (codes "c,d") ∷ [] ≢ []
    two e = cc

-- Text behind a closing quotation mark is lost at the end of a line, and refused in front of a separator.
text_after_quote :
    (parse_line (34 ∷ b'a' ∷ 34 ∷ b'b' ∷ 10 ∷ []) ≡ ok (codes "a" ∷ [], []))
    × (parse_line (34 ∷ b'a' ∷ 34 ∷ b'b' ∷ 44 ∷ 10 ∷ []) ≡ err csv_text_after_quote)
unfolding csv_loop csv_step csv_push csv_quote csv_separator csv_finish
text_after_quote = (refl, refl)

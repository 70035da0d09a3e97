-- ===== src/Dns/Crypt/Certificate.antt =====
-- dns/crypt/srcz/certificate.cpp and dns/crypt/certificate.hxx: the certificate of a server. An array of bytes is
-- a list; the time of `std::time` is an argument, and so is `crypto_sign_ed25519_open`: from a public
-- key and signed bytes, a code, zero for success, and the bytes that were signed.
pub mod Choice
pub mod Preference
pub mod Parsed
use cdns.Network.Packet.{Packet}
use cdns.Prelude.{
  ltb, leb, ◌==◌, if◌then◌else◌, Bytes, codes, bytes_eq, slice, of_list, read32, length, drop,
  get_or, invalid_certificate, suspicious_key, Result, ok, err, ◌>>=◌, ◌>>◌, guard, ℕ, ◌+◌, ◌*◌,
  ◌%◌, Bool, true, false, not, ◌&&◌, ◌||◌, Option, none, some, List, [], ◌∷◌,
}

pub record Version : Type 0 where
  pub magic : Bytes
  pub major : Bytes
  pub minor : Bytes

pub record CertificateData : Type 0 where
  pub server_publickey : Bytes
  pub magic_query : Bytes
  pub serial : Bytes
  pub ts_begin : Bytes
  pub ts_end : Bytes

pub record Certificate : Type 0 where
  pub version_ : Version
  pub data_ : CertificateData
  pub raw_signed_ : Bytes

pub data Cipher : Type 0 where
  undefined xsalsa20poly1305 xchacha20poly1305 : Cipher

-- An array as a 32-bit number, after `htonl`.
abbrev pub number : Bytes → ℕ
number xs = read32 (of_list xs) 0

abbrev pub part : Bytes → ℕ → ℕ → Bytes
part xs i n = slice (of_list xs) i n

-- `reinterpret_cast <const version *>`
unfoldable pub version_at : Bytes → Version
version_at xs = record { magic = part xs 0 4; major = part xs 4 2; minor = part xs 6 2 }

-- `reinterpret_cast <const certificate_data *>`
unfoldable pub data_at : Bytes → CertificateData
data_at xs = record {
  server_publickey = part xs 0 32;
  magic_query = part xs 32 8;
  serial = part xs 40 4;
  ts_begin = part xs 44 4;
  ts_end = part xs 48 4;
}

-- `detail::cert_parse_version`
unfoldable pub cert_parse_version : Version → Bool
cert_parse_version ver =
    let major = get_or ver.major 1 0 in
    if not (bytes_eq ver.magic (codes "DNSC"))
    then false
    else not (not (get_or ver.major 0 0 == 0) || (not (major == 1) && not (major == 2)))

-- `certificate::serial`
abbrev pub serial_of : Certificate → ℕ
serial_of c = number c.data_.serial

-- `certificate::version`
abbrev pub version_of : Certificate → ℕ
version_of c =
    (get_or c.version_.major 0 0 * 16777216
      + get_or c.version_.major 1 0 * 65536
      + get_or c.version_.minor 0 0 * 256
      + get_or c.version_.minor 1 0)
    % 4294967296

unfoldable pub is_preferred_over : Certificate → Certificate → Bool
is_preferred_over c previous =
    if ltb (version_of c) (version_of previous)
    then false
    else if ltb (version_of previous) (version_of c)
    then true
    else not (ltb (serial_of c) (serial_of previous))

-- `certificate::cipher`
unfoldable pub cipher_of : Certificate → Cipher
cipher_of c =
    let major = get_or c.version_.major 1 0 in
    if major == 1 then xsalsa20poly1305 else if major == 2 then xchacha20poly1305 else undefined

-- `certificate::ts`
abbrev pub ts : Certificate → ℕ × ℕ
ts c = (number c.data_.ts_begin, number c.data_.ts_end)

-- The checks of the constructor on the dates; `now` as 32 bits.
unfoldable pub check_dates : ℕ → Certificate → Result Certificate
check_dates now c = do
  guard (ltb (ts c).0 (ts c).1) invalid_certificate
  guard (leb (ts c).0 (now % 4294967296)) invalid_certificate
  guard (leb (now % 4294967296) (ts c).1) invalid_certificate
  ok c

-- The constructor.
unfoldable pub new_certificate :
    (Bytes → Bytes → ℕ × Bytes) → ℕ → Bytes → Bytes → Result Certificate
new_certificate sign_open now provider_pubkey signed = do
  guard (leb (length signed) 65000 && leb 8 (length signed)) invalid_certificate
  guard (cert_parse_version (version_at signed)) invalid_certificate
  let opened = sign_open provider_pubkey (drop 8 signed)
  guard (leb 52 (length opened.1)) invalid_certificate
  guard (opened.0 == 0) invalid_certificate
  check_dates now
      (record { version_ = version_at signed; data_ = data_at opened.1; raw_signed_ = signed })

-- `certificate::is_dnscrypt_message`; the header of a query has 52 bytes, and the code of
-- libsodium 16.
unfoldable pub is_dnscrypt_message : Certificate → Packet → Bool
is_dnscrypt_message c q =
    if leb q.size (52 + 16) then false else bytes_eq (slice q.bytes 0 8) c.data_.magic_query

-- The loop of `resolver::find_valid_certificate`: the certificate to keep.
unfoldable pub choose :
    (Bytes → Result Certificate) → Option Certificate → List Bytes → Option Certificate
choose parse cert [] = cert
choose parse cert (signed ∷ trv) =
    let skipped = choose parse cert trv in
    elim (parse signed) [
      | err e ↦ skipped
      | ok ci ↦ elim cert [
        | none ↦ choose parse (some ci) trv
        | some c ↦ if is_preferred_over ci c then choose parse (some ci) trv else skipped
      ]
    ]

-- `detail::encryptor_data`
pub record EncryptorData : Type 0 where
  pub encryptor_magic : Bytes
  pub publickey : Bytes
  pub secretkey : Bytes
  pub nmkey : Bytes
  pub nonce_pad : Bytes
  pub cipher : Cipher
  pub ephemeral_keys : Bool

-- What `find_valid_certificate` uses of a resolver.
pub record Resolver : Type 0 where
  pub pubkey_ : Bytes
  pub resolver_pubkey_ : Bytes
  pub dnscrypt_magic_query_ : Bytes
  pub ready_ : Bool
  pub client : EncryptorData

-- `crypto_box_beforenm`, for one cipher or the other: from a public key and a secret key, a code, zero
-- for success, and the shared key.
abbrev pub BeforeNm : Type 0
BeforeNm = Cipher → Bytes → Bytes → ℕ × Bytes

-- `encryptor::set_resolver_publickey`: the code is not zero on failure.
unfoldable pub set_resolver_publickey : BeforeNm → Bytes → EncryptorData → EncryptorData × Bool
set_resolver_publickey beforenm key d =
    let made = beforenm d.cipher key d.secretkey in
    if d.ephemeral_keys
    then (record d { publickey = key }, true)
    else elim d.cipher [ undefined ↦ (d, false) | _ ↦ (record d { nmkey = made.1 }, made.0 == 0) ]

-- The part behind the choice: the resolver, and the result or the exception.
unfoldable pub use_certificate : BeforeNm → Certificate → Resolver → Resolver × Result Bool
use_certificate beforenm cert r =
    let d = record (r.client) {
      encryptor_magic = cert.data_.magic_query;
      cipher = cipher_of cert;
    } in
    let set = set_resolver_publickey beforenm cert.data_.server_publickey d in
    let next = record r {
      resolver_pubkey_ = cert.data_.server_publickey;
      dnscrypt_magic_query_ = cert.data_.magic_query;
      client = set.0;
    } in
    elim (cipher_of cert) [
      | undefined ↦ (r, ok false)
      | _ ↦ if set.1 then (record next { ready_ = true }, ok true) else (next, err suspicious_key)
    ]

-- `resolver::find_valid_certificate`
unfoldable pub find_valid_certificate :
    BeforeNm → (Bytes → Bytes → ℕ × Bytes) → ℕ → List Bytes → Resolver → Resolver × Result Bool
find_valid_certificate beforenm sign_open now trv r =
    let r' = record r { ready_ = false } in
    elim (choose (new_certificate sign_open now r.pubkey_) none trv) [
      | none ↦ (r', ok false)
      | some cert ↦ use_certificate beforenm cert r'
    ]

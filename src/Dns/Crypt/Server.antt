-- ===== src/Dns/Crypt/Server.antt =====
-- dns/crypt/srcz/server_crypt.cpp: `uncurve` and `curve` of the server.
use Prim.Native.Nat.{min}
use cdns.Dns.Crypt.Box.{Box}
use cdns.Dns.Crypt.Certificate.{Cipher, xsalsa20poly1305, xchacha20poly1305}
use cdns.Dns.Crypt.Client.{full_nonce, magic_response, padded_message, cut_message}
use cdns.Dns.Crypt.Layout.{response_bytes}
use cdns.Network.Packet.{Packet}
use cdns.Prelude.{
  ltb, ◌==◌, if◌then◌else◌, Bytes, Memory, write_list, slice, of_list, length, get_or,
  too_short_encrypted, crypto_failed, Result, ok, guard, ◌>>=◌, ◌>>◌, ℕ, ◌+◌, ◌-◌, ◌*◌, ◌%◌, Bool,
  ◌&&◌, ◌++◌,
}

-- `detail::server_encryptor_data`
pub record ServerKeys : Type 0 where
  pub es_version : Bytes
  pub crypt_publickey : Bytes
  pub crypt_secretkey : Bytes

-- `is_chacha`
abbrev pub is_chacha : ServerKeys → Bool
is_chacha keys = get_or keys.es_version 0 0 == 0 && get_or keys.es_version 1 0 == 2

unfoldable pub server_cipher : ServerKeys → Cipher
server_cipher keys = if is_chacha keys then xchacha20poly1305 else xsalsa20poly1305

-- `crypto_random`: the first 4 bytes of the stream, the lowest byte first.
unfoldable pub crypto_random : Box → Bytes → Bytes → ℕ
crypto_random box halfnonce secret =
    let rnd = of_list (box.stream 4 (halfnonce ++ halfnonce) secret) in
    rnd 0 + 256 * rnd 1 + 65536 * rnd 2 + 16777216 * rnd 3

-- `server::encryptor::uncurve`: the shared key and the nonce, and the query.
unfoldable pub server_uncurve : Box → ServerKeys → Packet → Result ((Bytes × Bytes) × Packet)
server_uncurve box keys p =
    let nmkey = box.beforenm (server_cipher keys) (slice p.bytes 8 32) keys.crypt_secretkey in
    let nonce = slice p.bytes 40 12 in
    let opened =
      box.open_easy_afternm (server_cipher keys) (slice p.bytes 52 (p.size - 52)) (full_nonce nonce)
        nmkey.1 in
    do
      guard (ltb (52 + 16) p.size) too_short_encrypted
      guard (nmkey.0 == 0) crypto_failed
      guard (opened.0 == 0) crypto_failed
      q ← cut_message (write_list p.bytes 0 opened.1) (p.size - (52 + 16)) p
      ok ((nmkey.1, nonce), q)

-- The function for random numbers that `curve` gives to `pad_buffer`.
abbrev pub random_below : Box → ServerKeys → Bytes → ℕ → ℕ
random_below box keys client_nonce ub = crypto_random box client_nonce keys.crypt_secretkey % ub

-- The largest size of the padded response and its header.
abbrev pub response_limit : Packet → ℕ
response_limit p = min p.reserved ((p.size + (52 + 16)) * 3)

-- The message behind the place of the header and of the code, for `pad_buffer`.
abbrev pub moved_response : Packet → Memory
moved_response p = write_list p.bytes (32 + 16) (slice p.bytes 0 p.size)

unfoldable pub boxed_response : Box → ServerKeys → Bytes → Packet → Bytes
boxed_response box keys client_nonce p =
    padded_message (moved_response p) (32 + 16) p.size (response_limit p - (52 + 16) - 2)
      (random_below box keys client_nonce)

-- `server::encryptor::curve`; `server_nonce` is made at random.
unfoldable pub server_curve : Box → ServerKeys → Bytes → Bytes → Bytes → Packet → Result Packet
server_curve box keys server_nonce client_nonce nmkey p =
    let padded = boxed_response box keys client_nonce p in
    let sealed =
      box.easy_afternm (server_cipher keys) padded (client_nonce ++ server_nonce) nmkey in
    do
      guard (sealed.0 == 0) crypto_failed
      ok (record p {
        size = (length padded + (32 + 16)) % 65536;
        bytes = response_bytes (moved_response p) sealed.1 magic_response client_nonce server_nonce;
      })

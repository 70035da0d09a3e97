-- ===== src/Dns/Crypt/Client.antt =====
-- dns/crypt/srcz/encryptor.cpp: `curve` and `uncurve` of the client, and `curve_uncurve`. A half nonce
-- that is made at random is an argument. A header has 52 bytes for a query and 32 for a response, and
-- the code in front of a sealed message 16.
use Prim.Native.Nat.{min}
use cdns.Dns.Constants.{max_size, header_size}
use cdns.Dns.Crypt.Box.{Box}
use cdns.Dns.Crypt.Certificate.{
  Cipher, undefined, xsalsa20poly1305, xchacha20poly1305, EncryptorData,
}
use cdns.Dns.Crypt.Layout.{query_bytes}
use cdns.Dns.Crypt.Padding.{pad_buffer, find_end}
use cdns.Network.Packet.{Packet}
use cdns.Prelude.{
  ltb, leb, ◌==◌, if◌then◌else◌, Bytes, codes, bytes_eq, Memory, write_list, slice, length,
  unsupported, no_space, too_short_encrypted, wrong_magic, wrong_nonce, crypto_failed,
  decrypted_short, Result, err, ok, guard, ◌>>=◌, ◌>>◌, ℕ, ◌+◌, ◌-◌, ◌*◌, ◌%◌, Bool, true, false,
  not, ◌||◌, [], ◌∷◌, ◌++◌,
}

abbrev pub zeros12 : Bytes
zeros12 = 0 ∷ 0 ∷ 0 ∷ 0 ∷ 0 ∷ 0 ∷ 0 ∷ 0 ∷ 0 ∷ 0 ∷ 0 ∷ 0 ∷ []

-- `full_nonce (first)`: the second half is zero.
abbrev pub full_nonce : Bytes → Bytes
full_nonce first = first ++ zeros12

-- `magic_response()`
abbrev pub magic_response : Bytes
magic_response = codes "r6fnvWj8"

-- `keys.cipher == cipher::xsalsa20poly1305 || keys.cipher == cipher::xchacha20poly1305`
unfoldable pub is_supported : Cipher → Bool
is_supported undefined = false
is_supported xsalsa20poly1305 = true
is_supported xchacha20poly1305 = true

-- The secret key for one nonce.
abbrev pub ephemeral_secret : Box → EncryptorData → Bytes → Bytes
ephemeral_secret box keys first = box.stream 32 (first ++ keys.nonce_pad) keys.secretkey

-- `curve_uncurve`, to encrypt: the public key to send, and the sealed message.
unfoldable pub curve_message : Box → EncryptorData → Bytes → Bytes → Bytes → Result (Bytes × Bytes)
curve_message box keys first second input =
    let secret = ephemeral_secret box keys first in
    let nonce = first ++ second in
    let shared = box.easy_afternm keys.cipher input nonce keys.nmkey in
    let fresh = box.easy keys.cipher input nonce keys.publickey secret in
    if not (is_supported keys.cipher)
    then err unsupported
    else if keys.ephemeral_keys
    then (if fresh.0 == 0 then ok (box.scalarmult_base secret, fresh.1) else err crypto_failed)
    else (if shared.0 == 0 then ok (keys.publickey, shared.1) else err crypto_failed)

-- `curve_uncurve`, to decrypt.
unfoldable pub uncurve_message : Box → EncryptorData → Bytes → Bytes → Bytes → Result Bytes
uncurve_message box keys first second input =
    let secret = ephemeral_secret box keys first in
    let nonce = first ++ second in
    let shared = box.open_easy_afternm keys.cipher input nonce keys.nmkey in
    let fresh = box.open_easy keys.cipher input nonce keys.publickey secret in
    if not (is_supported keys.cipher)
    then err unsupported
    else if keys.ephemeral_keys
    then (if fresh.0 == 0 then ok fresh.1 else err crypto_failed)
    else (if shared.0 == 0 then ok shared.1 else err crypto_failed)

-- The message with its padding, `pad_buffer` being called for the place `at`.
unfoldable pub padded_message : Memory → ℕ → ℕ → ℕ → (ℕ → ℕ) → Bytes
padded_message buf at len max_len rndfunc =
    let padded = pad_buffer (λ i. buf (at + i)) len max_len rndfunc in slice padded.0 0 padded.1

-- The largest size of the query that is sent.
abbrev pub query_limit : Packet → ℕ
query_limit p = min (3 * (p.size + (52 + 16))) max_size

-- The message behind the place of the header, for `pad_buffer`.
abbrev pub moved_query : Packet → Memory
moved_query p = write_list p.bytes 52 (slice p.bytes 0 p.size)

unfoldable pub boxed_query : (ℕ → ℕ) → Packet → Bytes
boxed_query uniform p =
    padded_message (moved_query p) 52 p.size (query_limit p - (52 + 16) - 2) uniform

-- `encryptor::curve`
unfoldable pub client_curve : Box → (ℕ → ℕ) → EncryptorData → Bytes → Packet → Result Packet
client_curve box uniform keys session_nonce p =
    let boxed = boxed_query uniform p in
    let curved_size = length boxed + (52 + 16) in
    if ltb (query_limit p) p.size || ltb (query_limit p - p.size) (52 + 16)
    then err no_space
    else do
      r ← curve_message box keys session_nonce zeros12 boxed
      guard (not (ltb 65534 curved_size)) crypto_failed
      ok (record p {
        size = curved_size % 65536;
        bytes = query_bytes (moved_query p) r.1 keys.encryptor_magic r.0 session_nonce;
      })

-- The end of `uncurve`: the message in front of the mark.
unfoldable pub cut_message : Memory → ℕ → Packet → Result Packet
cut_message buf n p = do
  dec_size ← find_end buf n
  guard (leb header_size dec_size) decrypted_short
  ok (record p { size = dec_size % 65536; bytes = buf })

-- `encryptor::uncurve`
unfoldable pub client_uncurve : Box → EncryptorData → Bytes → Packet → Result Packet
client_uncurve box keys session_nonce p = do
  guard (ltb (32 + 16) p.size) too_short_encrypted
  guard (bytes_eq (slice p.bytes 0 8) magic_response) wrong_magic
  guard (bytes_eq session_nonce (slice p.bytes 8 12)) wrong_nonce
  opened ←
      uncurve_message box keys (slice p.bytes 8 12) (slice p.bytes 20 12)
        (slice p.bytes 32 (p.size - 32))
  cut_message (write_list p.bytes 0 opened) (p.size - 32 - 16) p

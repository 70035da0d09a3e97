-- ===== src/Dns/Crypt/Channel/Response.antt =====
-- A response on the way from a server to a client: `encryptor::curve` of
-- dns/crypt/srcz/server_crypt.cpp and `encryptor::uncurve` of dns/crypt/srcz/encryptor.cpp.
use cdns.Dns.Constants.{header_size}
use cdns.Dns.Crypt.Box.{Box, BoxLaws}
use cdns.Dns.Crypt.Certificate.{EncryptorData}
use cdns.Dns.Crypt.Channel.{Paired, sent_key, agreed_key, uncurve_message_lem}
use cdns.Dns.Crypt.Channel.Query.{cut_message_lem}
use cdns.Dns.Crypt.Client.{magic_response, client_uncurve}
use cdns.Dns.Crypt.Layout.{response_bytes, response_bytes_lem}
use cdns.Dns.Crypt.Padding.{find_end}
use cdns.Dns.Crypt.Padding.Bounds.{IsUniform}
use cdns.Dns.Crypt.Sealed.{padded_message_bounds, padded_message_cut}
use cdns.Dns.Crypt.Server.{
  ServerKeys, server_cipher, random_below, response_limit, moved_response, boxed_response,
  server_curve,
}
use cdns.Network.Packet.{Packet, contents}
use cdns.Prelude.{
  ltb, Bytes, bytes_eq_refl, Memory, write_list, slice, length-slice, slice-write_list_at, length,
  ok, ℕ, ◌+◌, ◌-◌, ◌*◌, ◌%◌, ◌≤◌, ◌<◌, ◌≡◌, refl, sym, ap, ◌∙◌, true, ◌++◌, arith,
}

-- The random numbers of the server are below their bound.
random_below-IsUniform :
    (box : Box) (keys : ServerKeys) (nonce : Bytes) → IsUniform (random_below box keys nonce)
random_below-IsUniform box keys nonce n = omega arith

boxed_response_lem :
    (box : Box) (keys : ServerKeys) (nonce : Bytes) (p : Packet)
    → p.size + 78 ≤ p.reserved
    → p.reserved < 65536
    → let t = boxed_response box keys nonce p in
      (p.size + 8 ≤ length t)
      × (length t + 70 ≤ response_limit p)
      × ((b : Memory)
          → (find_end (write_list b 0 t) (length t) ≡ ok p.size)
            × (slice (write_list b 0 t) 0 p.size ≡ contents p))
unfolding boxed_response
boxed_response_lem box keys nonce p room small =
    let u = random_below-IsUniform box keys nonce in
    let f = random_below box keys nonce in
    let room' : p.size + 8 ≤ response_limit p - (52 + 16) - 2 = omega (arith, room) in
    let small' : response_limit p - (52 + 16) - 2 + 64 < 4294967296 = omega (arith, small) in
    let bounds =
      padded_message_bounds (moved_response p) (32 + 16) p.size (response_limit p - (52 + 16) - 2) f
        u room' small' in
    (
      bounds.0,
      omega (arith, bounds.1, room'),
      λ b.
          let cut =
            padded_message_cut (moved_response p) (32 + 16) p.size
              (response_limit p - (52 + 16) - 2) f u room' small' b in
          (
            cut.0,
            cut.1
                ∙ slice-write_list_at p.bytes (32 + 16) (contents p) p.size
                    (sym (length-slice p.bytes 0 p.size)),
          ),
    )

client_uncurve_lem :
    (box : Box) (laws : BoxLaws box) (keys : EncryptorData) (server : ServerKeys)
    (pair : Paired box keys server) (q : Packet) (nonce second t : Bytes)
    → length t < 65536
    → let key = agreed_key box server (sent_key box keys nonce) in
      q.size ≡ length t + 48
      → slice q.bytes 0 8 ≡ magic_response
      → slice q.bytes 8 12 ≡ nonce
      → slice q.bytes 20 12 ≡ second
      → slice q.bytes 32 (q.size - 32) ≡ (box.easy_afternm keys.cipher t (nonce ++ second) key).1
      → (len : ℕ) → find_end (write_list q.bytes 0 t) (length t) ≡ ok len
      → header_size ≤ len
      → len < length t
      → len < 65536
      → client_uncurve box keys nonce q
        ≡ ok (record q { size = len; bytes = write_list q.bytes 0 t })
unfolding client_uncurve
client_uncurve_lem box laws keys server pair q nonce second t fits size e0 e1 e2 e3 len found head
      behind small =
    let s1 : ltb (32 + 16) q.size ≡ true = ground (arith, size, behind) in
    let s2 : q.size - 32 - 16 ≡ length t = omega (arith, size) in
    let cut = cut_message_lem (write_list q.bytes 0 t) (length t) len q found head small in
    rw
      (
        s1,
        e0,
        e1,
        e2,
        e3,
        bytes_eq_refl magic_response,
        bytes_eq_refl nonce,
        uncurve_message_lem box laws keys server pair nonce second t fits,
        s2,
        cut,
      )
      refl

module _ (box : Box) (laws : BoxLaws box) (keys : EncryptorData) (server : ServerKeys)
    (pair : Paired box keys server) (nonce second : Bytes) (half : length nonce ≡ 12)
    (half' : length second ≡ 12) (p : Packet) (dns : header_size ≤ p.size)
    (room : p.size + 78 ≤ p.reserved) (fits : p.reserved < 65536) where
  -- A response of at least 12 bytes in a buffer with 78 bytes more and below 2 ^ 16 bytes is encrypted
  -- by a server for a client with its keys, for two halves of a nonce of 12 bytes and functions of
  -- libsodium as documented: what is sent fits in the buffer and is smaller than three times the bytes
  -- of the response and the header of a query, and the client that holds the first half gets the bytes
  -- of the response from it.
  pub client_uncurve-server_curve :
      let key = agreed_key box server (sent_key box keys nonce) in
      (q : Packet) × (r : Packet) × (server_curve box server second nonce key p ≡ ok q)
      × (q.size ≤ q.reserved)
      × (q.size < 3 * (p.size + 68))
      × (client_uncurve box keys nonce q ≡ ok r)
      × (contents r ≡ contents p)
  unfolding server_curve
  client_uncurve-server_curve =
      let key = agreed_key box server (sent_key box keys nonce) in
      let t = boxed_response box server nonce p in
      let b = boxed_response_lem box server nonce p room fits in
      let short : length t < 65536 = omega (arith, b.1, fits) in
      let sealed = (box.easy_afternm (server_cipher server) t (nonce ++ second) key).1 in
      let w = response_bytes (moved_response p) sealed magic_response nonce second in
      let q : Packet = record p { size = length t + 48; bytes = w } in
      let parts =
        response_bytes_lem (moved_response p) sealed magic_response nonce second refl half half' in
      let behind : length t + 48 - 32 ≡ length sealed =
        omega (arith, laws.sealed_length (server_cipher server) t (nonce ++ second) key short) in
      let body : slice w 32 (length t + 48 - 32)
          ≡ (box.easy_afternm keys.cipher t (nonce ++ second) key).1 =
        ap (slice w 32) behind
        ∙ parts.3
        ∙ ap (λ c. (box.easy_afternm c t (nonce ++ second) key).1) (sym pair.same_cipher) in
      let size : (length t + (32 + 16)) % 65536 ≡ length t + 48 = omega (arith, b.1, fits) in
      (
        q,
        record q { size = p.size; bytes = write_list w 0 t },
        rw (laws.seals (server_cipher server) t (nonce ++ second) key short, size) refl,
        omega (arith, b.1),
        omega (arith, b.1),
        client_uncurve_lem box laws keys server pair q nonce second t short refl parts.0 parts.1
            parts.2 body p.size (b.2 w).0 dns (omega (arith, b.0)) (omega (arith, room, fits)),
        (b.2 w).1,
      )

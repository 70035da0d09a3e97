-- ===== src/Dns/Crypt/Channel/Query.antt =====
-- A query on the way from a client to a server: `encryptor::curve` of dns/crypt/srcz/encryptor.cpp and
-- `encryptor::uncurve` of dns/crypt/srcz/server_crypt.cpp.
use Prim.Native.Nat.{min}
use cdns.Dns.Constants.{max_size, header_size}
use cdns.Dns.Crypt.Box.{Box, BoxLaws}
use cdns.Dns.Crypt.Certificate.{EncryptorData}
use cdns.Dns.Crypt.Channel.{
  Paired, sent_key, agreed_key, agreed_key_shares, length-sent_key, curve_message_lem,
}
use cdns.Dns.Crypt.Client.{
  zeros12, full_nonce, query_limit, moved_query, boxed_query, client_curve, cut_message,
}
use cdns.Dns.Crypt.Layout.{query_bytes, query_bytes_lem}
use cdns.Dns.Crypt.Padding.{find_end}
use cdns.Dns.Crypt.Padding.Bounds.{IsUniform}
use cdns.Dns.Crypt.Sealed.{padded_message_bounds, padded_message_cut}
use cdns.Dns.Crypt.Server.{ServerKeys, server_cipher, server_uncurve}
use cdns.Network.Packet.{Packet, contents}
use cdns.Prelude.{
  ltb, le→leb, Bytes, Memory, write_list, slice, length-slice, slice-write_list_at, length, ok, ℕ,
  ◌+◌, ◌-◌, ◌*◌, ◌%◌, ◌≤◌, ◌<◌, ◌≡◌, refl, sym, ap, ◌∙◌, true, false, ◌||◌, arith,
}

pub cut_message_lem :
    (buf : Memory) (n len : ℕ) (p : Packet)
    → find_end buf n ≡ ok len
    → header_size ≤ len
    → len < 65536
    → cut_message buf n p ≡ ok (record p { size = len; bytes = buf })
unfolding cut_message
cut_message_lem buf n len p found head small =
    let e : len % 65536 ≡ len = omega (arith, small) in
    rw (found, le→leb header_size len head, e) refl

pub boxed_query_lem :
    (uniform : ℕ → ℕ)
    → IsUniform uniform
    → (p : Packet) → p.size + 78 ≤ max_size
    → let n = length (boxed_query uniform p) in
      (p.size + 8 ≤ n)
      × (n + 70 ≤ query_limit p)
      × ((b : Memory)
          → (find_end (write_list b 0 (boxed_query uniform p)) n ≡ ok p.size)
            × (slice (write_list b 0 (boxed_query uniform p)) 0 p.size ≡ contents p))
unfolding boxed_query
boxed_query_lem uniform u p room =
    let room' : p.size + 8 ≤ query_limit p - (52 + 16) - 2 = omega (arith, room) in
    let small : query_limit p - (52 + 16) - 2 + 64 < 4294967296 = omega arith in
    let bounds =
      padded_message_bounds (moved_query p) 52 p.size (query_limit p - (52 + 16) - 2) uniform u
        room' small in
    (
      bounds.0,
      omega (arith, bounds.1, room'),
      λ b.
          let cut =
            padded_message_cut (moved_query p) 52 p.size (query_limit p - (52 + 16) - 2) uniform u
              room' small b in
          (
            cut.0,
            cut.1
                ∙ slice-write_list_at p.bytes 52 (contents p) p.size
                    (sym (length-slice p.bytes 0 p.size)),
          ),
    )

module _ (box : Box) (laws : BoxLaws box) (keys : EncryptorData) (server : ServerKeys)
    (pair : Paired box keys server) (uniform : ℕ → ℕ) (u : IsUniform uniform) (nonce : Bytes)
    (p : Packet) (room : p.size + 78 ≤ max_size) where
  pub client_curve_lem :
      let key = agreed_key box server (sent_key box keys nonce) in
      let boxed = boxed_query uniform p in
      let sealed = (box.easy_afternm keys.cipher boxed (full_nonce nonce) key).1 in
      client_curve box uniform keys nonce p
      ≡ ok (record p {
        size = length boxed + 68;
        bytes =
            query_bytes (moved_query p) sealed keys.encryptor_magic (sent_key box keys nonce) nonce;
      })
  unfolding client_curve
  client_curve_lem =
      let sent_pk =
        curve_message_lem box laws keys server pair nonce zeros12 (boxed_query uniform p)
          (omega (arith, (boxed_query_lem uniform u p room).1)) in
      let b = boxed_query_lem uniform u p room in
      let s1 : (ltb (query_limit p) p.size || ltb (query_limit p - p.size) (52 + 16)) ≡ false =
        ground (arith, room) in
      let s2 : ltb 65534 (length (boxed_query uniform p) + (52 + 16)) ≡ false =
        ground (arith, b.1) in
      let s3 : (length (boxed_query uniform p) + (52 + 16)) % 65536
          ≡ length (boxed_query uniform p) + 68 =
        omega (arith, b.1) in
      rw (s1, sent_pk, s2, s3) refl

-- What the server makes of a query with the parts that it looks for.
server_uncurve_lem :
    (box : Box) (laws : BoxLaws box) (server : ServerKeys) (q : Packet) (sent_pk nonce t : Bytes)
    → (box.beforenm (server_cipher server) sent_pk server.crypt_secretkey).0 ≡ 0
    → length t < 65536
    → let key = agreed_key box server sent_pk in
      q.size ≡ length t + 68
      → slice q.bytes 8 32 ≡ sent_pk
      → slice q.bytes 40 12 ≡ nonce
      → slice q.bytes 52 (q.size - 52)
        ≡ (box.easy_afternm (server_cipher server) t (full_nonce nonce) key).1
      → (len : ℕ) → find_end (write_list q.bytes 0 t) (length t) ≡ ok len
      → header_size ≤ len
      → len < length t
      → len < 65536
      → server_uncurve box server q
        ≡ ok ((key, nonce), record q { size = len; bytes = write_list q.bytes 0 t })
unfolding server_uncurve
server_uncurve_lem box laws server q sent_pk nonce t good fits size e1 e2 e3 len found head behind
      small =
    let s1 : ltb (52 + 16) q.size ≡ true = ground (arith, size, behind) in
    let s2 : q.size - (52 + 16) ≡ length t = omega (arith, size) in
    let cut = cut_message_lem (write_list q.bytes 0 t) (length t) len q found head small in
    rw
      (
        s1,
        e1,
        good,
        e2,
        e3,
        laws.opens (server_cipher server) t (full_nonce nonce) (agreed_key box server sent_pk) fits,
        s2,
        cut,
      )
      refl

module _ (box : Box) (laws : BoxLaws box) (keys : EncryptorData) (server : ServerKeys)
    (pair : Paired box keys server) (uniform : ℕ → ℕ) (u : IsUniform uniform) (nonce : Bytes)
    (half : length nonce ≡ 12) (p : Packet) (dns : header_size ≤ p.size)
    (room : p.size + 78 ≤ max_size) where
  -- A query of at least 12 bytes, with 78 bytes of room below the largest size, is encrypted by a client
  -- with the keys of the server and half a nonce of 12 bytes, for random numbers below their bound and
  -- functions of libsodium as documented: what is sent has at most three times the bytes of the message
  -- and the header less two, and at most the largest size less two, and from it the server gets the
  -- bytes of the query, the half nonce and the key that both share.
  pub server_uncurve-client_curve :
      (q : Packet) × (r : Packet) × (client_curve box uniform keys nonce p ≡ ok q)
      × (q.size + 2 ≤ min (3 * (p.size + 68)) max_size)
      × (server_uncurve box server q
          ≡ ok ((agreed_key box server (sent_key box keys nonce), nonce), r))
      × (contents r ≡ contents p)
  server_uncurve-client_curve =
      let key = agreed_key box server (sent_key box keys nonce) in
      let t = boxed_query uniform p in
      let b = boxed_query_lem uniform u p room in
      let fits : length t < 65536 = omega (arith, b.1) in
      let sealed = (box.easy_afternm keys.cipher t (full_nonce nonce) key).1 in
      let w =
        query_bytes (moved_query p) sealed keys.encryptor_magic (sent_key box keys nonce) nonce in
      let q : Packet = record p { size = length t + 68; bytes = w } in
      let parts =
        query_bytes_lem (moved_query p) sealed keys.encryptor_magic (sent_key box keys nonce) nonce
          pair.magic_length (length-sent_key box laws keys server pair nonce) half in
      let behind : length t + 68 - 52 ≡ length sealed =
        omega (arith, laws.sealed_length keys.cipher t (full_nonce nonce) key fits) in
      let body : slice w 52 (length t + 68 - 52)
          ≡ (box.easy_afternm (server_cipher server) t (full_nonce nonce) key).1 =
        ap (slice w 52) behind
        ∙ parts.2
        ∙ ap (λ c. (box.easy_afternm c t (full_nonce nonce) key).1) pair.same_cipher in
      (
        q,
        record q { size = p.size; bytes = write_list w 0 t },
        client_curve_lem box laws keys server pair uniform u nonce p room,
        omega (arith, b.1),
        server_uncurve_lem box laws server q (sent_key box keys nonce) nonce t
            (agreed_key_shares box laws keys server pair nonce) fits refl parts.0 parts.1 body
            p.size (b.2 w).0 dns (omega (arith, b.0)) (omega (arith, room)),
        (b.2 w).1,
      )

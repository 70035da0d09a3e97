-- ===== src/Dns/Crypt/Cresponder/Secret.antt =====
-- A client that encrypts and a server that serves it, end to end.
use cdns.Dns.Constants.{max_size, header_size}
use cdns.Dns.Crypt.Box.{Box, BoxLaws}
use cdns.Dns.Crypt.Certificate.{is_dnscrypt_message, EncryptorData}
use cdns.Dns.Crypt.Channel.{Paired, sent_key, agreed_key}
use cdns.Dns.Crypt.Channel.Query.{boxed_query_lem, client_curve_lem, server_uncurve-client_curve}
use cdns.Dns.Crypt.Channel.Response.{client_uncurve-server_curve}
use cdns.Dns.Crypt.Client.{full_nonce, moved_query, boxed_query, client_curve, client_uncurve}
use cdns.Dns.Crypt.Cresponder.{
  ServerEnd, Cresponder, Session, decrypted_query, arrive, crypt_respond, CryptChoice,
  plain_provider, crypt_provider, sent, crypt_send, crypt_handle, crypt_process, adapted_session,
  crypt_pass_answer,
}
use cdns.Dns.Crypt.Layout.{query_bytes, query_bytes_magic}
use cdns.Dns.Crypt.Padding.Bounds.{IsUniform}
use cdns.Dns.Crypt.Server.{server_uncurve}
use cdns.Dns.Header.{rcode}
use cdns.Dns.Info.{short_info}
use cdns.Dns.Responder.{
  Responder, store_response, Choice, respond_with, store_and_respond, pass_answer_downstream,
}
use cdns.Network.Address.{Inet}
use cdns.Network.Packet.{Packet, contents}
use cdns.Prelude.{
  leb, ◌==◌, Bool-cases, Bytes, bytes_eq_refl, length, ok, Result-cases, ℕ, ◌+◌, ◌≤◌, ◌<◌, ◌≡◌,
  refl, ap, ◌∙◌, subst, inl, inr, Bool, true, false, ◌||◌, Option, none, some, arith,
}

arrive_decrypted :
    (box : Box) (q r : Packet) (session : Session) (s : ServerEnd)
    → is_dnscrypt_message s.certificate q ≡ true
    → server_uncurve box s.server_keys q ≡ ok (session, r)
    → arrive box (some s) q ≡ ok (decrypted_query session r)
unfolding arrive
arrive_decrypted box q r session s f g = rw (f, g) refl

crypt_process_decrypted :
    (pton : Inet → Bytes → Option Bytes) (box : Box) (second : Bytes) (connects : Bool)
    (now rand : ℕ) (q r : Packet) (session : Session) (s : ServerEnd) (c : Cresponder)
    → c.server_end ≡ some s
    → is_dnscrypt_message s.certificate q ≡ true
    → server_uncurve box s.server_keys q ≡ ok (session, r)
    → crypt_process pton box second connects now rand q c
      ≡ crypt_handle pton box second connects now rand (some session) r c
unfolding crypt_process
crypt_process_decrypted pton box second connects now rand q r session s c e f g =
    let arrived : arrive box c.server_end q ≡ ok (decrypted_query session r) =
      ap (λ x. arrive box x q) e ∙ arrive_decrypted box q r session s f g in
    rw (crypt_process, arrived) refl

-- A reply that the inherited handler answers with is sent, with the session that is left.
crypt_pass_answer_sends :
    (box : Box) (second : Bytes) (now : ℕ) (x : CryptChoice) (session : Option Session) (m : Packet)
    (file : Option Bytes) (c : Cresponder)
    → (pass_answer_downstream now m c.base).1 ≡ respond_with m file
    → (crypt_pass_answer box second now x session m c).1
      ≡ crypt_send box second c.server_end (adapted_session x session) m file
unfolding crypt_pass_answer pass_answer_downstream store_and_respond
crypt_pass_answer_sends box second now x session m file c h = elim (Result-cases (short_info m)) [
  | inr (e, i) ↦ let g = rw (pass_answer_downstream, i) at h in cc
  | inl (t, i) ↦ elim (Bool-cases (rcode m == 0 || rcode m == 3)) [
    | inr bad ↦
        let g = rw (pass_answer_downstream, i, bad) at h in
        let same : none ≡ file = cc in rw (crypt_pass_answer, i, bad, same) refl
    | inl good ↦ elim (Result-cases (store_response now m c.base)) [
      | inr (e, f) ↦ let g = rw (pass_answer_downstream, i, good, store_and_respond, f) at h in cc
      | inl (r, f) ↦
          let g = rw (pass_answer_downstream, i, good, store_and_respond, f) at h in
          let same : r.1 ≡ file = cc in rw (crypt_pass_answer, i, good, f, same) refl
    ]
  ]
]

module _ (box : Box) (laws : BoxLaws box) (keys : EncryptorData) (s : ServerEnd)
    (pair : Paired box keys s.server_keys)
    (same_magic : keys.encryptor_magic ≡ s.certificate.data_.magic_query) (uniform : ℕ → ℕ)
    (u : IsUniform uniform) (nonce : Bytes) (half : length nonce ≡ 12) (p : Packet)
    (dns : header_size ≤ p.size) (room : p.size + 78 ≤ max_size) (c : Cresponder)
    (serves : c.server_end ≡ some s) (pton : Inet → Bytes → Option Bytes) (second : Bytes)
    (half' : length second ≡ 12) (connects : Bool) (now rand : ℕ) where
  -- A query that is sent is taken for one.
  sent-is_dnscrypt_message :
      (q : Packet)
      → client_curve box uniform keys nonce p ≡ ok q
      → is_dnscrypt_message s.certificate q ≡ true
  unfolding is_dnscrypt_message
  sent-is_dnscrypt_message q e =
      let key = agreed_key box s.server_keys (sent_key box keys nonce) in
      let t = boxed_query uniform p in
      let sealed = (box.easy_afternm keys.cipher t (full_nonce nonce) key).1 in
      let w =
        query_bytes (moved_query p) sealed keys.encryptor_magic (sent_key box keys nonce) nonce in
      let made : Packet = record p { size = length t + 68; bytes = w } in
      let lem = client_curve_lem box laws keys s.server_keys pair uniform u nonce p room in
      let same : made ≡ q = cc (e, lem) in
      let magic =
        query_bytes_magic (moved_query p) sealed keys.encryptor_magic (sent_key box keys nonce)
          nonce pair.magic_length in
      let b = boxed_query_lem uniform u p room in
      let long : leb (length t + 68) (52 + 16) ≡ false = ground (arith, b.0, dns) in
      subst (λ x. is_dnscrypt_message s.certificate x ≡ true) same
        (rw (is_dnscrypt_message, long, magic, same_magic)
          (bytes_eq_refl s.certificate.data_.magic_query))

  -- A client has the keys of a server and its magic number, and functions of libsodium are as documented.
  -- A query of at least 12 bytes with 78 bytes of room, encrypted by the client, is handled by the server as
  -- a message with the bytes of the query and with a session. A reply for this session, of at least 12
  -- bytes with 78 bytes of room, that `pass_answer_downstream` answers with: where it came from a server
  -- that is asked in plain, the client gets its bytes from what is sent; where it came from a DNSCrypt
  -- server, it is sent as it is, not encrypted.
  pub client_uncurve-crypt_pass_answer :
      (m : Packet) (file : Option Bytes) (x : Choice) (key : Bytes)
      → (pass_answer_downstream now m c.base).1 ≡ respond_with m file
      → header_size ≤ m.size
      → m.size + 78 ≤ m.reserved
      → m.reserved < 65536
      → let session : Session = (agreed_key box s.server_keys (sent_key box keys nonce), nonce) in
        (q : Packet) × (r : Packet) × (a : Packet) × (b : Packet) × (client_curve box uniform keys
            nonce p
          ≡ ok q)
        × (crypt_process pton box second connects now rand q c
            ≡ crypt_handle pton box second connects now rand (some session) r c)
        × (contents r ≡ contents p)
        × ((crypt_pass_answer box second now (plain_provider x) (some session) m c).1 ≡ sent a file)
        × (client_uncurve box keys nonce a ≡ ok b)
        × (contents b ≡ contents m)
        × ((crypt_pass_answer box second now (crypt_provider key) (some session) m c).1
            ≡ sent m file)
  unfolding crypt_send crypt_respond adapted_session
  client_uncurve-crypt_pass_answer m file x key answers dns' room' fits =
      let shared = agreed_key box s.server_keys (sent_key box keys nonce) in
      let session : Option Session = some (shared, nonce) in
      let (q, r, e, _, f, g) =
        server_uncurve-client_curve box laws keys s.server_keys pair uniform u nonce half p dns
          room in
      let (a, b, e', _, _, f', g') =
        client_uncurve-server_curve box laws keys s.server_keys pair nonce second half half' m dns'
          room' fits in
      (
        q,
        r,
        a,
        b,
        e,
        crypt_process_decrypted pton box second connects now rand q r (shared, nonce) s c serves
            (sent-is_dnscrypt_message q e) f,
        g,
        crypt_pass_answer_sends box second now (plain_provider x) session m file c answers
            ∙ rw (serves, crypt_send, adapted_session, crypt_respond, e') refl,
        f',
        g',
        crypt_pass_answer_sends box second now (crypt_provider key) session m file c answers
            ∙ rw (serves, crypt_send, adapted_session, crypt_respond) refl,
      )

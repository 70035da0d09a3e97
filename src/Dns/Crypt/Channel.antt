-- ===== src/Dns/Crypt/Channel.antt =====
-- The keys of a client and of a server that belong together: dns/crypt/srcz/encryptor.cpp, the
-- constructors and `set_resolver_publickey`, and dns/crypt/srcz/server_crypt.cpp.
pub mod Query
pub mod Response
use cdns.Dns.Crypt.Box.{Box, BoxLaws}
use cdns.Dns.Crypt.Certificate.{EncryptorData}
use cdns.Dns.Crypt.Client.{is_supported, ephemeral_secret, curve_message, uncurve_message}
use cdns.Dns.Crypt.Server.{ServerKeys, is_chacha, server_cipher}
use cdns.Prelude.{
  if◌then◌else◌, Bool-cases, Bytes, length, ok, ◌<◌, ◌≡◌, refl, ap, inl, inr, true, false, ◌++◌,
}

-- The client has the server's public key and cipher: the public key in `publickey` where keys are
-- ephemeral, else the shared key of it and of the client's own secret key in `nmkey`. Secret keys
-- have 32 bytes.
pub record Paired (box : Box) (keys : EncryptorData) (server : ServerKeys) : Type 0 where
  pub same_cipher : keys.cipher ≡ server_cipher server
  pub server_secret : length server.crypt_secretkey ≡ 32
  pub client_secret : length keys.secretkey ≡ 32
  pub magic_length : length keys.encryptor_magic ≡ 8
  pub fresh :
      keys.ephemeral_keys ≡ true → keys.publickey ≡ box.scalarmult_base server.crypt_secretkey
  pub own : keys.ephemeral_keys ≡ false → keys.publickey ≡ box.scalarmult_base keys.secretkey
  pub shared :
      keys.ephemeral_keys ≡ false
      → keys.nmkey
        ≡ (box.beforenm keys.cipher (box.scalarmult_base server.crypt_secretkey) keys.secretkey).1

-- The public key that a query carries.
abbrev pub sent_key : Box → EncryptorData → Bytes → Bytes
sent_key box keys first =
    if keys.ephemeral_keys
    then box.scalarmult_base (ephemeral_secret box keys first)
    else keys.publickey

-- The key that both ends use for it.
abbrev pub agreed_key : Box → ServerKeys → Bytes → Bytes
agreed_key box server sent_pk =
    (box.beforenm (server_cipher server) sent_pk server.crypt_secretkey).1

server_cipher-supported : (server : ServerKeys) → is_supported (server_cipher server) ≡ true
unfolding server_cipher is_supported
server_cipher-supported server = elim (Bool-cases (is_chacha server)) [
  | inl e ↦ rw e refl
  | inr e ↦ rw e refl
]

module _ (box : Box) (laws : BoxLaws box) (keys : EncryptorData) (server : ServerKeys)
    (pair : Paired box keys server) where
  secret_length : (first : Bytes) → length (ephemeral_secret box keys first) ≡ 32
  secret_length first = laws.stream_length 32 (first ++ keys.nonce_pad) keys.secretkey

  -- The server gets a shared key from the public key of a query.
  pub agreed_key_shares :
      (first : Bytes)
      → (box.beforenm (server_cipher server) (sent_key box keys first) server.crypt_secretkey).0 ≡ 0
  agreed_key_shares first = elim (Bool-cases keys.ephemeral_keys) [
    | inl e ↦ rw e (
        laws.shares (server_cipher server) (ephemeral_secret box keys first) server.crypt_secretkey
          (secret_length first) pair.server_secret)
    | inr e ↦
        rw (e, pair.own e)
          (laws.shares (server_cipher server) keys.secretkey server.crypt_secretkey
            pair.client_secret pair.server_secret)
  ]

  -- The client gets one from the public key of the server.
  fresh_shares :
      (secret : Bytes)
      → length secret ≡ 32
      → keys.ephemeral_keys ≡ true
      → (box.beforenm keys.cipher keys.publickey secret).0 ≡ 0
  fresh_shares secret n e =
      rw (pair.fresh e) (laws.shares keys.cipher server.crypt_secretkey secret pair.server_secret n)

  pub length-sent_key : (first : Bytes) → length (sent_key box keys first) ≡ 32
  length-sent_key first = elim (Bool-cases keys.ephemeral_keys) [
    | inl e ↦ rw e (laws.base_length (ephemeral_secret box keys first) (secret_length first))
    | inr e ↦ rw (e, pair.own e) (laws.base_length keys.secretkey pair.client_secret)
  ]

  -- The shared key of both ways to keep keys.
  fresh_key :
      (secret : Bytes)
      → length secret ≡ 32
      → keys.ephemeral_keys ≡ true
      → (box.beforenm keys.cipher keys.publickey secret).1
        ≡ agreed_key box server (box.scalarmult_base secret)
  fresh_key secret n e =
      rw (pair.same_cipher, pair.fresh e)
        (laws.agrees (server_cipher server) server.crypt_secretkey secret pair.server_secret n)

  own_key : keys.ephemeral_keys ≡ false → keys.nmkey ≡ agreed_key box server keys.publickey
  own_key e =
      rw (pair.shared e, pair.own e, pair.same_cipher)
        (laws.agrees (server_cipher server) server.crypt_secretkey keys.secretkey pair.server_secret
          pair.client_secret)

  supported : is_supported keys.cipher ≡ true
  supported = rw pair.same_cipher (server_cipher-supported server)

  pub curve_message_lem :
      (first second m : Bytes)
      → length m < 65536
      → let key = agreed_key box server (sent_key box keys first) in
        curve_message box keys first second m
        ≡ ok (sent_key box keys first, (box.easy_afternm keys.cipher m (first ++ second) key).1)
  unfolding curve_message
  curve_message_lem first second m small =
      let nonce = first ++ second in
      let secret = ephemeral_secret box keys first in
      let key = agreed_key box server (sent_key box keys first) in
      let good : (k : Bytes) → (box.easy_afternm keys.cipher m nonce k).0 ≡ 0 =
        λ k. laws.seals keys.cipher m nonce k small in
      let n = secret_length first in
      elim (Bool-cases keys.ephemeral_keys) [
        | inl e ↦
            rw
              (
                supported,
                e,
                laws.easy_shared keys.cipher m nonce keys.publickey secret small
                    (fresh_shares secret n e),
                good (box.beforenm keys.cipher keys.publickey secret).1,
              )
              (ap (λ k. ok (box.scalarmult_base secret, (box.easy_afternm keys.cipher m nonce k).1))
                (fresh_key secret n e))
        | inr e ↦
            rw (supported, e, good keys.nmkey)
              (ap (λ k. ok (keys.publickey, (box.easy_afternm keys.cipher m nonce k).1))
                (own_key e))
      ]

  pub uncurve_message_lem :
      (first second m : Bytes)
      → length m < 65536
      → let key = agreed_key box server (sent_key box keys first) in
        uncurve_message box keys first second
          (box.easy_afternm keys.cipher m (first ++ second) key).1
        ≡ ok m
  unfolding uncurve_message
  uncurve_message_lem first second m small =
      let nonce = first ++ second in
      let secret = ephemeral_secret box keys first in
      let key = agreed_key box server (sent_key box keys first) in
      elim (Bool-cases keys.ephemeral_keys) [
        | inl e ↦
            rw
              (
                supported,
                e,
                laws.open_easy_shared keys.cipher
                    (box.easy_afternm keys.cipher m nonce
                      (agreed_key box server (box.scalarmult_base secret))).1
                    nonce keys.publickey secret (fresh_shares secret (secret_length first) e),
                fresh_key secret (secret_length first) e,
                laws.opens keys.cipher m nonce (agreed_key box server (box.scalarmult_base secret))
                    small,
              )
              refl
        | inr e ↦
            rw
              (
                supported,
                e,
                own_key e,
                laws.opens keys.cipher m nonce (agreed_key box server keys.publickey) small,
              )
              refl
      ]

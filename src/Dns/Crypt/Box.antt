-- ===== src/Dns/Crypt/Box.antt =====
-- The functions of libsodium that dns/crypt/srcz/encryptor.cpp and dns/crypt/srcz/server_crypt.cpp
-- call, as a parameter, and what is documented of them. Each function for the two ciphers is one
-- function of a cipher; a code is zero for success.
use cdns.Dns.Crypt.Certificate.{Cipher, BeforeNm}
use cdns.Prelude.{Bytes, length, ℕ, ◌+◌, ◌<◌, ◌≡◌}

pub record Box : Type 0 where
  -- `crypto_box_beforenm`: from a public and a secret key, the shared key.
  pub beforenm : BeforeNm
  -- `crypto_box_easy_afternm` and `crypto_box_open_easy_afternm`: a message, a nonce, a shared key.
  pub easy_afternm : Cipher → Bytes → Bytes → Bytes → ℕ × Bytes
  pub open_easy_afternm : Cipher → Bytes → Bytes → Bytes → ℕ × Bytes
  -- `crypto_box_easy` and `crypto_box_open_easy`: a message, a nonce, a public and a secret key.
  pub easy : Cipher → Bytes → Bytes → Bytes → Bytes → ℕ × Bytes
  pub open_easy : Cipher → Bytes → Bytes → Bytes → Bytes → ℕ × Bytes
  -- `crypto_stream`: as many bytes, from a nonce and a key.
  pub stream : ℕ → Bytes → Bytes → Bytes
  -- `crypto_scalarmult_base`: the public key of a secret key.
  pub scalarmult_base : Bytes → Bytes

-- What is documented of them, for messages of less than 2 ^ 16 bytes and secret keys of 32 bytes: sealing
-- with a shared key succeeds and adds 16 bytes; what is sealed opens with the same nonce and key; a public
-- key that is made of a secret key has 32 bytes and gives a shared key, which is the same for both
-- parties, where other public keys may be refused; and where two keys give a shared key, sealing and
-- opening with the two is sealing and opening with it.
pub record BoxLaws (b : Box) : Type 0 where
  pub seals : (c : Cipher) (m n k : Bytes) → length m < 65536 → (b.easy_afternm c m n k).0 ≡ 0
  pub sealed_length :
      (c : Cipher) (m n k : Bytes)
      → length m < 65536
      → length (b.easy_afternm c m n k).1 ≡ 16 + length m
  pub opens :
      (c : Cipher) (m n k : Bytes)
      → length m < 65536
      → b.open_easy_afternm c (b.easy_afternm c m n k).1 n k ≡ (0, m)
  pub shares :
      (c : Cipher) (s t : Bytes)
      → length s ≡ 32
      → length t ≡ 32
      → (b.beforenm c (b.scalarmult_base s) t).0 ≡ 0
  pub easy_shared :
      (c : Cipher) (m n p s : Bytes)
      → length m < 65536
      → (b.beforenm c p s).0 ≡ 0
      → b.easy c m n p s ≡ b.easy_afternm c m n (b.beforenm c p s).1
  pub open_easy_shared :
      (c : Cipher) (m n p s : Bytes)
      → (b.beforenm c p s).0 ≡ 0
      → b.open_easy c m n p s ≡ b.open_easy_afternm c m n (b.beforenm c p s).1
  pub agrees :
      (c : Cipher) (s t : Bytes)
      → length s ≡ 32
      → length t ≡ 32
      → (b.beforenm c (b.scalarmult_base s) t).1 ≡ (b.beforenm c (b.scalarmult_base t) s).1
  pub base_length : (s : Bytes) → length s ≡ 32 → length (b.scalarmult_base s) ≡ 32
  pub stream_length : (n : ℕ) (nonce k : Bytes) → length (b.stream n nonce k) ≡ n

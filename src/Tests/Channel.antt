-- ===== src/Tests/Channel.antt =====
-- Messages between two ends, with functions in place of those of libsodium that put 16 zeros in front
-- of a message and give all parties the same keys.
use Prim.Native.Nat.{min}
use cdns.Dns.Constants.{max_size}
use cdns.Dns.Crypt.Box.{Box, BoxLaws}
use cdns.Dns.Crypt.Certificate.{xchacha20poly1305, EncryptorData}
use cdns.Dns.Crypt.Channel.{Paired}
use cdns.Dns.Crypt.Channel.Query.{server_uncurve-client_curve}
use cdns.Dns.Crypt.Channel.Response.{client_uncurve-server_curve}
use cdns.Dns.Crypt.Client.{zeros12, client_curve, client_uncurve}
use cdns.Dns.Crypt.Server.{ServerKeys, server_cipher, server_uncurve, server_curve}
use cdns.Network.Packet.{Packet, contents}
use cdns.Prelude.{
  Bytes, codes, slice, length-slice, drop, ok, ℕ, ◌+◌, ◌*◌, ◌≤◌, ◌<◌, ◌≡◌, refl, true, [], ◌∷◌,
  arith,
}
use cdns.Tests.Crypt.{zero_random}

abbrev pub seal : Bytes → ℕ × Bytes
seal m = (0, 0 ∷ 0 ∷ 0 ∷ 0 ∷ 0 ∷ 0 ∷ 0 ∷ 0 ∷ 0 ∷ 0 ∷ 0 ∷ 0 ∷ 0 ∷ 0 ∷ 0 ∷ 0 ∷ m)

abbrev pub shared_bytes : Bytes
shared_bytes = slice (λ i. 5) 0 32

abbrev pub clear_box : Box
clear_box = record {
  beforenm = λ c p s. (0, shared_bytes);
  easy_afternm = λ c m n k. seal m;
  open_easy_afternm = λ c m n k. (0, drop 16 m);
  easy = λ c m n p s. seal m;
  open_easy = λ c m n p s. (0, drop 16 m);
  stream = λ n nonce k. slice (λ i. 9) 0 n;
  scalarmult_base = λ s. shared_bytes;
}

pub clear_box_laws : BoxLaws clear_box
clear_box_laws = record {
  seals = λ c m n k h. refl;
  sealed_length = λ c m n k h. omega arith;
  opens = λ c m n k h. refl;
  shares = λ c s t h k. refl;
  easy_shared = λ c m n p s h k. refl;
  open_easy_shared = λ c m n p s h. refl;
  agrees = λ c s t h k. refl;
  base_length = λ s h. length-slice (λ i. 5) 0 32;
  stream_length = λ n nonce k. length-slice (λ i. 9) 0 n;
}

abbrev pub end_keys : ServerKeys
end_keys = record {
  es_version = 0 ∷ 2 ∷ [];
  crypt_publickey = shared_bytes;
  crypt_secretkey = shared_bytes;
}

abbrev pub client_keys : EncryptorData
client_keys = record {
  encryptor_magic = codes "magicnum";
  publickey = shared_bytes;
  secretkey = shared_bytes;
  nmkey = shared_bytes;
  nonce_pad = zeros12;
  cipher = xchacha20poly1305;
  ephemeral_keys = true;
}

pub client_keys-Paired : Paired clear_box client_keys end_keys
unfolding server_cipher
client_keys-Paired = record {
  same_cipher = refl;
  server_secret = length-slice (λ i. 5) 0 32;
  client_secret = length-slice (λ i. 5) 0 32;
  magic_length = refl;
  fresh = λ e. refl;
  own = λ e. refl;
  shared = λ e. refl;
}

abbrev pub message : Packet
message = record { size = 40; reserved = 1000; bytes = λ i. i }

server_uncurve-client_curve_example :
    (q : Packet) × (r : Packet) × (client_curve clear_box (λ n. 0) client_keys zeros12 message
      ≡ ok q)
    × (q.size + 2 ≤ min (3 * (40 + 68)) max_size)
    × (server_uncurve clear_box end_keys q ≡ ok ((shared_bytes, zeros12), r))
    × (contents r ≡ contents message)
server_uncurve-client_curve_example =
    server_uncurve-client_curve clear_box clear_box_laws client_keys end_keys client_keys-Paired
      (λ n. 0) zero_random zeros12 refl message (omega arith) (omega arith)

client_uncurve-server_curve_example :
    (q : Packet) × (r : Packet) × (server_curve clear_box end_keys zeros12 zeros12 shared_bytes
        message
      ≡ ok q)
    × (q.size ≤ q.reserved)
    × (q.size < 3 * (40 + 68))
    × (client_uncurve clear_box client_keys zeros12 q ≡ ok r)
    × (contents r ≡ contents message)
client_uncurve-server_curve_example =
    client_uncurve-server_curve clear_box clear_box_laws client_keys end_keys client_keys-Paired
      zeros12 zeros12 refl refl message (omega arith) (omega arith) (omega arith)

-- ===== src/Dns/Crypt/Layout.antt =====
-- The parts of a message that is encrypted: dns/crypt/message_header.hxx, `query_header` and
-- `response_header`, with what is sealed behind them.
use cdns.Prelude.{
  Bytes, Memory, write_list, slice, slice-write_list, slice-write_list_other, slice-write_list_at,
  length, ◌≡◌, ◌∙◌, inl, inr, arith,
}

-- `query_header`: the number of the certificate, a public key and half a nonce.
unfoldable pub query_bytes : Memory → Bytes → Bytes → Bytes → Bytes → Memory
query_bytes m sealed magic key nonce =
    write_list (write_list (write_list (write_list m 52 sealed) 0 magic) 8 key) 40 nonce

-- `response_header`: a number and two halves of a nonce.
unfoldable pub response_bytes : Memory → Bytes → Bytes → Bytes → Bytes → Memory
response_bytes m sealed magic client_nonce server_nonce =
    write_list (write_list (write_list (write_list m 32 sealed) 0 magic) 8 client_nonce) 20
      server_nonce

pub query_bytes_lem :
    (m : Memory) (c magic key nonce : Bytes)
    → length magic ≡ 8
    → length key ≡ 32
    → length nonce ≡ 12
    → let w = query_bytes m c magic key nonce in
      (slice w 8 32 ≡ key) × (slice w 40 12 ≡ nonce) × (slice w 52 (length c) ≡ c)
unfolding query_bytes
query_bytes_lem m c magic key nonce l8 l32 l12 =
    let m0 = write_list m 52 c in
    let m1 = write_list m0 0 magic in
    let m2 = write_list m1 8 key in
    (
      slice-write_list_other m2 40 nonce 8 32 (inl (omega arith))
          ∙ slice-write_list_at m1 8 key 32 (omega (arith, l32)),
      slice-write_list_at m2 40 nonce 12 (omega (arith, l12)),
      slice-write_list_other m2 40 nonce 52 (length c) (inr (omega (arith, l12)))
          ∙ slice-write_list_other m1 8 key 52 (length c) (inr (omega (arith, l32)))
          ∙ slice-write_list_other m0 0 magic 52 (length c) (inr (omega (arith, l8)))
          ∙ slice-write_list m 52 c,
    )

pub query_bytes_magic :
    (m : Memory) (c magic key nonce : Bytes)
    → length magic ≡ 8
    → slice (query_bytes m c magic key nonce) 0 8 ≡ magic
unfolding query_bytes
query_bytes_magic m c magic key nonce l8 =
    let m0 = write_list m 52 c in
    let m1 = write_list m0 0 magic in
    slice-write_list_other (write_list m1 8 key) 40 nonce 0 8 (inl (omega arith))
    ∙ slice-write_list_other m1 8 key 0 8 (inl (omega arith))
    ∙ slice-write_list_at m0 0 magic 8 (omega (arith, l8))

pub response_bytes_lem :
    (m : Memory) (c magic client_nonce server_nonce : Bytes)
    → length magic ≡ 8
    → length client_nonce ≡ 12
    → length server_nonce ≡ 12
    → let w = response_bytes m c magic client_nonce server_nonce in
      (slice w 0 8 ≡ magic)
      × (slice w 8 12 ≡ client_nonce)
      × (slice w 20 12 ≡ server_nonce)
      × (slice w 32 (length c) ≡ c)
unfolding response_bytes
response_bytes_lem m c magic client_nonce server_nonce l8 l12 k12 =
    let m0 = write_list m 32 c in
    let m1 = write_list m0 0 magic in
    let m2 = write_list m1 8 client_nonce in
    (
      slice-write_list_other m2 20 server_nonce 0 8 (inl (omega arith))
          ∙ slice-write_list_other m1 8 client_nonce 0 8 (inl (omega arith))
          ∙ slice-write_list_at m0 0 magic 8 (omega (arith, l8)),
      slice-write_list_other m2 20 server_nonce 8 12 (inl (omega arith))
          ∙ slice-write_list_at m1 8 client_nonce 12 (omega (arith, l12)),
      slice-write_list_at m2 20 server_nonce 12 (omega (arith, k12)),
      slice-write_list_other m2 20 server_nonce 32 (length c) (inr (omega (arith, k12)))
          ∙ slice-write_list_other m1 8 client_nonce 32 (length c) (inr (omega (arith, l12)))
          ∙ slice-write_list_other m0 0 magic 32 (length c) (inr (omega (arith, l8)))
          ∙ slice-write_list m 32 c,
    )

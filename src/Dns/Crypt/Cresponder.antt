-- ===== src/Dns/Crypt/Cresponder.antt =====
-- dns/crypt/cresponder.hxx and dns/crypt/srcz/cresponder.cpp: a responder that asks DNSCrypt servers and
-- serves clients that encrypt. libsodium, the half nonce that is made at random, the value of `rand` and
-- whether a request to a server can be made are arguments. The member with the last server that was
-- chosen, which is written before it is read, and the failures of DNSCrypt servers, which are only
-- logged, are left out.
pub mod Secret
pub mod Choosing
pub mod Load
pub mod Maps
pub mod Merged
pub mod Loaded
pub mod Reload
use Prim.Native.Nat.{min}
use cdns.Dns.Answer.{set_txt_answer, is_dnscrypt_certificate_request}
use cdns.Dns.Crypt.Box.{Box}
use cdns.Dns.Crypt.Certificate.{Certificate, is_dnscrypt_message}
use cdns.Dns.Crypt.Certifier.{Certifier}
use cdns.Dns.Crypt.Server.{ServerKeys, server_uncurve, server_curve}
use cdns.Dns.Header.{rcode, mark_servfail}
use cdns.Dns.Info.{short_info}
use cdns.Dns.Record.{get_question}
use cdns.Dns.Responder.{
  Responder, Filtered, respond_now, store_and_send, ask_server, pre_filter, store_response, Choice,
  zone_provider, random_provider, fail_choice,
}
use cdns.Network.Address.{Inet}
use cdns.Network.Packet.{Packet, is_dns}
use cdns.Network.Requests.{request, clean}
use cdns.Prelude.{
  ◌==◌, if◌then◌else◌, Bytes, bytes_eq, length, get_or, Error, Result, err, ok, ◌>>=◌, ℕ, ◌+◌, ◌%◌,
  Bool, false, not, ◌||◌, Option, none, some, List, [], ◌∷◌, ◌++◌,
}
use cdns.Tests.Messages.{answer}

-- `server::responder`
pub record ServerEnd : Type 0 where
  pub server_keys : ServerKeys
  pub certificate : Certificate
  pub hostname_ : Bytes

-- The servers by the texts of their addresses, and the responder that is derived from.
pub record Cresponder : Type 0 where
  pub base : Responder
  pub dnscrypt_providers : List (Bytes × Certifier)
  pub server_end : Option ServerEnd

-- `emessage::keys_t`: the shared key and the half nonce of the client. A message that has one is an
-- `emessage`.
abbrev pub Session : Type 0
Session = Bytes × Bytes

-- What `process` makes of a request before the inherited `process` sees it: it is left as it is, decrypted,
-- or answered with the certificate.
pub data Arrived : Type 0 where
  unencrypted : Arrived
  decrypted_query : Session → Packet → Arrived
  certificate_answer : Packet → Arrived

unfoldable pub arrive : Box → Option ServerEnd → Packet → Result Arrived
arrive box none p = ok unencrypted
arrive box (some s) p =
    let answer =
      (get_question p >>= λ q.
      set_txt_answer s.certificate.raw_signed_ 10 p >>= λ a. ok (certificate_answer a)) in
    if is_dnscrypt_message s.certificate p
    then (server_uncurve box s.server_keys p >>= λ r. ok (decrypted_query r.0 r.1))
    else if is_dns p
    then (is_dnscrypt_certificate_request s.hostname_ p >>= λ asks.
        if asks then answer else ok unencrypted)
    else ok unencrypted

-- `cresponder::respond`: the message that is sent.
unfoldable pub crypt_respond :
    Box → Bytes → Option ServerEnd → Option Session → Packet → Result Packet
crypt_respond box nonce none session msg = ok msg
crypt_respond box nonce (some s) none msg = ok msg
crypt_respond box nonce (some s) (some k) msg = server_curve box s.server_keys nonce k.1 k.0 msg

-- A server that is chosen: one of the responder that is derived from, or a DNSCrypt server.
pub data CryptChoice : Type 0 where
  plain_provider : Choice → CryptChoice
  crypt_provider : Bytes → CryptChoice

-- The servers that are ready.
unfoldable pub ready_keys : List (Bytes × Certifier) → List Bytes
ready_keys [] = []
ready_keys ((key, c) ∷ cs) =
    let rest = ready_keys cs in if c.resolver.ready_ then key ∷ rest else rest

-- `cresponder::select_random_provider`; without a server that is ready, the empty text.
unfoldable pub select_crypt_provider : ℕ → List (Bytes × Certifier) → Bytes
select_crypt_provider rand providers =
    let ready = ready_keys providers in
    if length ready == 0 then [] else get_or ready (rand % min (length ready) 2147483647) []

-- `std::map::find`
unfoldable pub find_crypt_provider : Bytes → List (Bytes × Certifier) → Option Certifier
find_crypt_provider k [] = none
find_crypt_provider k ((key, c) ∷ cs) = if bytes_eq key k then some c else find_crypt_provider k cs

-- The part of `cresponder::random_provider` with DNSCrypt servers.
unfoldable pub crypt_provider_of : ℕ → List (Bytes × Certifier) → Option CryptChoice
crypt_provider_of rand providers =
    let key = select_crypt_provider rand providers in
    if length key == 0 then none else elim (find_crypt_provider key providers) [
      | none ↦ none
      | some c ↦ some (crypt_provider key)
    ]

abbrev pub plain_choice : Option Choice → Option CryptChoice
plain_choice none = none
plain_choice (some x) = some (plain_provider x)

-- `cresponder::random_provider`
unfoldable pub crypt_random_provider : ℕ → Packet → Cresponder → Result (Option CryptChoice)
crypt_random_provider rand p c = do
  zone ← zone_provider p c.base
  elim zone [
    | some x ↦ ok (some (plain_provider x))
    | none ↦
        if length c.dnscrypt_providers == 0
        then (random_provider rand p c.base >>= λ x. ok (plain_choice x))
        else ok (crypt_provider_of rand c.dnscrypt_providers)
  ]

-- What becomes of a request: it is closed without an answer, answered, behind the writing of a file, if one
-- is given, where a failure to write it leaves as an exception in place of the answer; or passed on to a
-- server; or an exception leaves the handler.
pub data CryptOutcome : Type 0 where
  closed : CryptOutcome
  sent : Packet → Option Bytes → CryptOutcome
  forwarded : CryptChoice → CryptOutcome
  raised : Error → CryptOutcome

unfoldable pub crypt_send :
    Box → Bytes → Option ServerEnd → Option Session → Packet → Option Bytes → CryptOutcome
crypt_send box nonce s session msg file = elim (crypt_respond box nonce s session msg) [
  | err e ↦ raised e
  | ok q ↦ sent q file
]

unfoldable pub fail_crypt_choice : CryptChoice → Responder → Responder
fail_crypt_choice (plain_provider x) r = fail_choice x r
fail_crypt_choice (crypt_provider key) r = r

-- The end of the inherited `process`, with the servers of this class: the original message, which keeps
-- its session, is answered where no request can be made.
unfoldable pub crypt_ask :
    Box → Bytes → Bool → ℕ → Option Session → Packet → Cresponder → Cresponder × CryptOutcome
crypt_ask box nonce connects rand session p c =
    let fail = crypt_send box nonce c.server_end session (mark_servfail p) none in
    let r = c.base in
    let cleaned = clean r.upstream_requests in
    elim (crypt_random_provider rand p c) [
      | err e ↦ (c, raised e)
      | ok none ↦ (c, fail)
      | ok (some x) ↦
          if connects
          then (
            record c {
              base = record r {
                upstream_requests = cleaned ++ request r.processed_count false ∷ [];
              };
            },
            forwarded x,
          )
          else (
            record c { base = fail_crypt_choice x (record r { upstream_requests = cleaned }) },
            fail,
          )
    ]

-- The inherited `process` behind `pre_filter`. The message that `pre_filter` has changed is a copy of the
-- class `query`, which has no session.
unfoldable pub crypt_after :
    Box
    → Bytes
    → Bool
    → ℕ
    → ℕ
    → Option Session
    → Packet
    → Filtered
    → Packet
    → Cresponder
    → Cresponder × CryptOutcome
crypt_after box nonce connects now rand session p respond_now m c =
    (c, crypt_send box nonce c.server_end none m none)
crypt_after box nonce connects now rand session p store_and_send m c =
    elim (store_response now m c.base) [
      | err e ↦ (c, raised e)
      | ok s ↦ (record c { base = s.0 }, crypt_send box nonce c.server_end none m s.1)
    ]
crypt_after box nonce connects now rand session p ask_server m c =
    crypt_ask box nonce connects rand session p c

-- The inherited `process`, of a message with its session.
unfoldable pub crypt_handle :
    (Inet → Bytes → Option Bytes)
    → Box
    → Bytes
    → Bool
    → ℕ
    → ℕ
    → Option Session
    → Packet
    → Cresponder
    → Cresponder × CryptOutcome
crypt_handle inet_pton box nonce connects now rand session p c =
    let r1 = record (c.base) { processed_count = c.base.processed_count + 1 } in
    if not (is_dns p) then (c, closed) else elim (pre_filter inet_pton now p r1) [
      | err e ↦ (record c { base = r1 }, raised e)
      | ok f ↦
          crypt_after box nonce connects now rand session p f.1 f.0.1 (record c { base = f.0.0 })
    ]

-- `cresponder::process`
unfoldable pub crypt_process :
    (Inet → Bytes → Option Bytes)
    → Box
    → Bytes
    → Bool
    → ℕ
    → ℕ
    → Packet
    → Cresponder
    → Cresponder × CryptOutcome
crypt_process inet_pton box nonce connects now rand p c = elim (arrive box c.server_end p) [
  | err e ↦ (c, raised e)
  | ok unencrypted ↦ crypt_handle inet_pton box nonce connects now rand none p c
  | ok (decrypted_query session q) ↦
      crypt_handle inet_pton box nonce connects now rand (some session) q c
  | ok (certificate_answer a) ↦ (c, sent a none)
]

-- `provider::adapt_message` makes a copy of the same class, `resolver::adapt_message` a `message`, which
-- has no session of a client.
unfoldable pub adapted_session : CryptChoice → Option Session → Option Session
adapted_session (plain_provider x) session = session
adapted_session (crypt_provider key) session = none

-- `pass_answer_downstream`, with the server that was asked and the session of the request.
unfoldable pub crypt_pass_answer :
    Box → Bytes → ℕ → CryptChoice → Option Session → Packet → Cresponder → Cresponder × CryptOutcome
crypt_pass_answer box nonce now x session msg c =
    let passed = adapted_session x session in
    let s = c.server_end in
    elim (short_info msg) [
      | err e ↦ (c, raised e)
      | ok u ↦
          if rcode msg == 0 || rcode msg == 3
          then elim (store_response now msg c.base) [
            | err e ↦ (c, raised e)
            | ok r ↦ (record c { base = r.0 }, crypt_send box nonce s passed msg r.1)
          ]
          else (c, crypt_send box nonce s passed msg none)
    ]

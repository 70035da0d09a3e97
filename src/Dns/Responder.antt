-- ===== src/Dns/Responder.antt =====
-- dns/responder.hxx and dns/srcz/responder.cpp: the answer to a request, from the filters, the cache, the
-- file of hosts or another server. `inet_pton` and the value of `rand` are arguments, and so is whether
-- a request to a server can be made. The two filters are never null pointers behind the
-- constructors. Log output is left out.
pub mod Load
pub mod Lines
pub mod Servers
pub mod Merged
pub mod Reloaded
pub mod Filtering
pub mod Counts
pub mod Forwarded
pub mod Replies
use Prim.Native.Nat.{min}
use cdns.Dns.Answer.{set_answer}
use cdns.Dns.Cache.{Cache, store, retrieve}
use cdns.Dns.Cache.File.{save_as}
use cdns.Dns.Filter.{Filter, match_name}
use cdns.Dns.Header.{rcode, mark_refused, mark_servfail}
use cdns.Dns.Hosts.{HostMap, response}
use cdns.Dns.Info.{short_info}
use cdns.Dns.Record.{get_question, drop_last_dot, hostname}
use cdns.Network.Address.{Inet, Address}
use cdns.Network.Packet.{Packet, is_dns}
use cdns.Network.Requests.{Request, request, clean}
use cdns.Prelude.{
  ltb, leb, ◌==◌, if◌then◌else◌, Bytes, codes, bytes_eq, length, drop, Error, no_provider, Result,
  err, ok, ◌>>=◌, ℕ, zero, suc, ◌+◌, ◌-◌, ◌%◌, Bool, true, false, not, ◌&&◌, ◌||◌, Option, none,
  some, List, [], ◌∷◌, ◌++◌,
}
use cdns.Tests.Channel.{message}

-- `network::provider`
pub record Provider : Type 0 where
  pub address : Address
  pub tcp : Bool
  pub failures : ℕ

pub record Responder : Type 0 where
  pub whitelist : Filter
  pub blacklist : Filter
  pub cache : Cache
  pub hosts : HostMap
  pub dns_providers : List Provider
  pub onion_provider : Option Provider
  pub upstream_requests : List Request
  pub blacklisted_count : ℕ
  pub processed_count : ℕ
  pub cached_count : ℕ
  pub cache_dir : Bytes
  pub noipv6 : Bool

-- `filter::empty`
unfoldable pub filter_empty : Filter → Bool
filter_empty f =
    length f.suffix_ == 0
    && length f.prefix_ == 0
    && length f.substrings_ == 0
    && length f.exact_ == 0

abbrev pub type_aaaa : ℕ
type_aaaa = 28

-- Whether a request may be answered, by its name and type; a test is made when those before it pass.
unfoldable pub passes : Responder → Bytes → ℕ → Result Bool
passes r owner type = do
  white ← (if filter_empty r.whitelist then ok true else match_name owner r.whitelist)
  black ← (if white then match_name owner r.blacklist else ok true)
  ok (not black && not (r.noipv6 && type == type_aaaa))

-- The results 1, 2 and 0 of `pre_filter`: to answer, to store and answer, and to ask a server.
pub data Filtered : Type 0 where
  respond_now store_and_send ask_server : Filtered

-- The end of `pre_filter`: the file of hosts.
unfoldable pub from_hosts :
    (Inet → Bytes → Option Bytes)
    → Bytes
    → Packet
    → Responder
    → Result ((Responder × Packet) × Filtered)
from_hosts inet_pton owner p r =
    let ip = response r.hosts owner in
    if length ip == 0
    then ok ((r, p), ask_server)
    else (set_answer inet_pton ip p >>= λ a. ok ((r, a), store_and_send))

-- `responder::pre_filter`: the responder, the message and the result.
unfoldable pub pre_filter :
    (Inet → Bytes → Option Bytes)
    → ℕ
    → Packet
    → Responder
    → Result ((Responder × Packet) × Filtered)
pre_filter inet_pton now p r = do
  q ← get_question p
  pass ← passes r (drop_last_dot q.owner) q.type
  if not pass
      then ok
          ((record r { blacklisted_count = r.blacklisted_count + 1 }, mark_refused p), respond_now)
      else (retrieve now p r.cache >>= λ found. elim found [
        | some a ↦ ok ((record r { cached_count = r.cached_count + 1 }, a), respond_now)
        | none ↦ from_hosts inet_pton (drop_last_dot q.owner) p r
      ])

-- `responder::store`: the bytes of the file that is to be written, if one is.
unfoldable pub store_response : ℕ → Packet → Responder → Result (Responder × Option Bytes)
store_response now msg r = do
  c ← store now msg r.cache
  let file =
      if not (length r.cache_dir == 0) && length c.entries % 16 == 0 then some (save_as c) else none
  ok (record r { cache = c }, file)

-- The end of `text`.
abbrev pub onion : Bytes
onion = codes ".onion"

-- A provider: the one for the zone, or one of the list.
pub data Choice : Type 0 where
  zone_choice : Choice
  listed : ℕ → Choice

-- `responder::zone_provider`
unfoldable pub zone_provider : Packet → Responder → Result (Option Choice)
zone_provider p r = elim r.onion_provider [
  | none ↦ ok none
  | some provider ↦ do
    owner ← hostname p
    ok (
        if ltb 6 (length owner) && bytes_eq (drop (length owner - 6) owner) onion
        then some zone_choice
        else none)
]

-- `responder::select_random_provider`
unfoldable pub select_random_provider : ℕ → List Provider → ℕ
select_random_provider rand providers =
    let mx = min (length providers) 2147483647 in rand % (if mx == 0 then 1 else mx)

-- `responder::random_provider`
unfoldable pub random_provider : ℕ → Packet → Responder → Result (Option Choice)
random_provider rand p r =
    let i = select_random_provider rand r.dns_providers in
    do
      zone ← zone_provider p r
      elim zone [
        | some provider ↦ ok (some provider)
        | none ↦
            if length r.dns_providers == 0
            then ok none
            else if leb (length r.dns_providers) i
            then err no_provider
            else ok (some (listed i))
      ]

-- `provider::increment_failures`, of a chosen provider.
abbrev pub increment_failures : Provider → Provider
increment_failures provider = record provider { failures = provider.failures + 1 }

unfoldable pub fail_at : ℕ → List Provider → List Provider
fail_at i [] = []
fail_at zero (p ∷ ps) = increment_failures p ∷ ps
fail_at (suc i) (p ∷ ps) = p ∷ fail_at i ps

unfoldable pub fail_choice : Choice → Responder → Responder
fail_choice zone_choice r = record r {
  onion_provider = elim r.onion_provider [ none ↦ none | some p ↦ some (increment_failures p) ];
}
fail_choice (listed i) r = record r { dns_providers = fail_at i r.dns_providers }

-- What becomes of a request: it is closed without an answer, answered, behind the writing of a file, if
-- one is given, where a failure to write it leaves as an exception in place of the answer; or passed on
-- to a server; or an exception leaves the handler.
pub data Outcome : Type 0 where
  no_answer : Outcome
  respond_with : Packet → Option Bytes → Outcome
  passed_on : Choice → Outcome
  thrown : Error → Outcome

-- A message that is stored and sent.
unfoldable pub store_and_respond : ℕ → Packet → Responder → Responder × Outcome
store_and_respond now msg r = elim (store_response now msg r) [
  | err e ↦ (r, thrown e)
  | ok s ↦ (s.0, respond_with msg s.1)
]

-- The end of `process`: a request to a server, which has a number.
unfoldable pub ask_provider : Bool → ℕ → Packet → Responder → Responder × Outcome
ask_provider connects rand p r = elim (random_provider rand p r) [
  | err e ↦ (r, thrown e)
  | ok none ↦ (r, respond_with (mark_servfail p) none)
  | ok (some c) ↦
      let cleaned = clean r.upstream_requests in
      if connects
      then (
        record r { upstream_requests = cleaned ++ request r.processed_count false ∷ [] },
        passed_on c,
      )
      else (
        fail_choice c (record r { upstream_requests = cleaned }),
        respond_with (mark_servfail p) none,
      )
]

-- The rest of `process`, behind `pre_filter`, with its result and its message.
unfoldable pub after_filter :
    Bool → ℕ → ℕ → Packet → Filtered → Packet → Responder → Responder × Outcome
after_filter connects now rand p respond_now m r = (r, respond_with m none)
after_filter connects now rand p store_and_send m r = store_and_respond now m r
after_filter connects now rand p ask_server m r = ask_provider connects rand p r

-- `responder::process`
unfoldable pub process :
    (Inet → Bytes → Option Bytes) → Bool → ℕ → ℕ → Packet → Responder → Responder × Outcome
process inet_pton connects now rand p r =
    let r1 = record r { processed_count = r.processed_count + 1 } in
    if not (is_dns p) then (r, no_answer) else elim (pre_filter inet_pton now p r1) [
      | err e ↦ (r1, thrown e)
      | ok f ↦ after_filter connects now rand p f.1 f.0.1 f.0.0
    ]

-- `_upstream_incoming_::pass_answer_downstream`: the log is given a text of the reply first, which may
-- throw; failures are not stored.
unfoldable pub pass_answer_downstream : ℕ → Packet → Responder → Responder × Outcome
pass_answer_downstream now message r = elim (short_info message) [
  | err e ↦ (r, thrown e)
  | ok u ↦
      if rcode message == 0 || rcode message == 3
      then store_and_respond now message r
      else (r, respond_with message none)
]

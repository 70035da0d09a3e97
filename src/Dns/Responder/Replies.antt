-- ===== src/Dns/Responder/Replies.antt =====
-- A reply of a server is what later requests for its question are answered with; and what becomes of a
-- question for the root.
use cdns.Dns.Cache.{Cache}
use cdns.Dns.Filter.{match_name}
use cdns.Dns.Record.{Question, get_question, drop_last_dot}
use cdns.Dns.Responder.{Responder, filter_empty, passes, pre_filter, thrown, process}
use cdns.Network.Address.{Inet}
use cdns.Network.Packet.{Packet, is_dns}
use cdns.Prelude.{
  Bool-cases, Bytes, filter_host_short, ok, ℕ, ◌+◌, ◌≡◌, refl, inl, inr, Bool, true, Option, [],
}

-- A request that is a message with a question for the root is counted as processed, and is not
-- answered: `filter::match` throws for the empty name, and the exception leaves `process`.
pub process-root :
    (pton : Inet → Bytes → Option Bytes) (connects : Bool) (now rand : ℕ) (p : Packet)
    (r : Responder) (q : Question)
    → is_dns p ≡ true
    → get_question p ≡ ok q
    → drop_last_dot q.owner ≡ []
    → process pton connects now rand p r
      ≡ (record r { processed_count = r.processed_count + 1 }, thrown filter_host_short)
unfolding process pre_filter passes match_name
process-root pton connects now rand p r q dns e root =
    elim (Bool-cases (filter_empty r.whitelist)) [
      | inl blank ↦ rw (dns, e, root, blank) refl
      | inr filled ↦ rw (dns, e, root, filled) refl
    ]

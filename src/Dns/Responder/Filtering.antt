-- ===== src/Dns/Responder/Filtering.antt =====
-- The four ways through `responder::pre_filter`.
use cdns.Dns.Answer.{set_answer}
use cdns.Dns.Cache.{retrieve}
use cdns.Dns.Header.{mark_refused}
use cdns.Dns.Hosts.{response}
use cdns.Dns.Record.{Question, get_question, drop_last_dot}
use cdns.Dns.Responder.{
  Responder, passes, Filtered, respond_now, store_and_send, ask_server, from_hosts, pre_filter,
}
use cdns.Network.Address.{Inet}
use cdns.Network.Packet.{Packet}
use cdns.Prelude.{
  ◌==◌, Bool-cases, Option-cases, Bytes, length, ok, >>=-eq-ok, ℕ, ◌+◌, ◌≡◌, refl, subst, inl, inr,
  true, false, Option, none, some, [], ◌∷◌, arith,
}

-- What `pre_filter` gives for a question, and when.
pub data Passed (pton : Inet → Bytes → Option Bytes) (now : ℕ) (p : Packet) (r : Responder)
    (q : Question) : (Responder × Packet) × Filtered → Type 0 where
  blocked_name :
      passes r (drop_last_dot q.owner) q.type ≡ ok false
      → Passed pton now p r q
          ((record r { blacklisted_count = r.blacklisted_count + 1 }, mark_refused p), respond_now)
  fetched_answer :
      {a : Packet}
      → passes r (drop_last_dot q.owner) q.type ≡ ok true
      → retrieve now p r.cache ≡ ok (some a)
      → Passed pton now p r q ((record r { cached_count = r.cached_count + 1 }, a), respond_now)
  known_host :
      {a : Packet}
      → passes r (drop_last_dot q.owner) q.type ≡ ok true
      → retrieve now p r.cache ≡ ok none
      → set_answer pton (response r.hosts (drop_last_dot q.owner)) p ≡ ok a
      → Passed pton now p r q ((r, a), store_and_send)
  unknown :
      passes r (drop_last_dot q.owner) q.type ≡ ok true
      → retrieve now p r.cache ≡ ok none
      → response r.hosts (drop_last_dot q.owner) ≡ []
      → Passed pton now p r q ((r, p), ask_server)

length-zero : (xs : Bytes) → (length xs == 0) ≡ true → xs ≡ []
length-zero [] h = refl
length-zero (x ∷ xs) h = absurd (ground arith)

module _ (pton : Inet → Bytes → Option Bytes) (now : ℕ) (p : Packet) (r : Responder) where
  ok-Passed :
      {q : Question} {x y : (Responder × Packet) × Filtered}
      → Passed pton now p r q y
      → ok y ≡ ok x
      → Passed pton now p r q x
  ok-Passed {q} {x} {y} f h = let e : y ≡ x = cc in subst (Passed pton now p r q) e f

  from_hosts-Passed :
      (q : Question) {x : (Responder × Packet) × Filtered}
      → passes r (drop_last_dot q.owner) q.type ≡ ok true
      → retrieve now p r.cache ≡ ok none
      → from_hosts pton (drop_last_dot q.owner) p r ≡ ok x
      → Passed pton now p r q x
  unfolding from_hosts
  from_hosts-Passed q {x} pass miss h =
      let ip = response r.hosts (drop_last_dot q.owner) in
      elim (Bool-cases (length ip == 0)) [
        | inl blank ↦
            ok-Passed (unknown pass miss (length-zero ip blank)) (rw (from_hosts, blank) at h)
        | inr host ↦
            let (a, e, g) = >>=-eq-ok (set_answer pton ip p) _ (rw (from_hosts, host) at h) in
            ok-Passed (known_host pass miss e) g
      ]

  pub pre_filter-Passed :
      {x : (Responder × Packet) × Filtered}
      → pre_filter pton now p r ≡ ok x
      → (q : Question) × (get_question p ≡ ok q) × Passed pton now p r q x
  unfolding pre_filter
  pre_filter-Passed {x} h =
      let (q, e, h1) = >>=-eq-ok (get_question p) _ h in
      let (pass, e2, h2) = >>=-eq-ok (passes r (drop_last_dot q.owner) q.type) _ h1 in
      elim (Bool-cases pass) [
        | inr blocked ↦ (q, e, ok-Passed (blocked_name (rw blocked at e2)) (rw blocked at h2))
        | inl free ↦
            let (found, e3, h3) = >>=-eq-ok (retrieve now p r.cache) _ (rw free at h2) in
            elim (Option-cases found) [
              | inr (a, s) ↦
                  (q, e, ok-Passed (fetched_answer (rw free at e2) (rw s at e3)) (rw s at h3))
              | inl s ↦ (q, e, from_hosts-Passed q (rw free at e2) (rw s at e3) (rw s at h3))
            ]
      ]

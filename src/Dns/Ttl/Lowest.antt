-- ===== src/Dns/Ttl/Lowest.antt =====
-- What `answer_min_ttl` finds.
use cdns.Dns.Constants.{type_opt}
use cdns.Dns.Header.{header}
use cdns.Dns.Record.{RrHeader, Rr, get_rrs}
use cdns.Dns.Ttl.{
  slt32, int32_max, record_count, lower, min_ttl_loop, answers_min_ttl, answer_min_ttl,
}
use cdns.Dns.Ttl.Adjust.{get_rrs-cons, Reads}
use cdns.Network.Address.{split}
use cdns.Network.Packet.{Packet}
use cdns.Prelude.{
  ◌==◌, All, ok, ℕ, zero, suc, ◌≡◌, refl, ◌≢◌, ◌⊎◌, inl, inr, true, false, not, ◌||◌, List, [], ◌∷◌,
  arith,
}

-- The lowest time to live of the records, and of a bound.
unfoldable pub lowest : ℕ → List Rr → ℕ
lowest m [] = m
lowest m (r ∷ rs) = lowest (lower r m) rs

min_ttl_loop-lowest :
    (n off m : ℕ) (p : Packet) {rs : List Rr}
    → get_rrs n off p ≡ ok rs
    → min_ttl_loop n off m p ≡ ok (lowest m rs)
unfolding min_ttl_loop get_rrs lowest
min_ttl_loop-lowest zero off m p {rs} e = ground arith
min_ttl_loop-lowest (suc n) off m p {rs} e =
    let (r, rest, split, f, f') = get_rrs-cons n off p e in
    rw (f, split) (min_ttl_loop-lowest n r.next (lower r m) p f')

-- No record but the pseudo record OPT lives shorter than `m`.
abbrev pub Lives : ℕ → Rr → Type 0
Lives m r = ((r.rr.type == type_opt) || not (slt32 r.rr.ttl m)) ≡ true

lowest-le : (m : ℕ) (rs : List Rr) → slt32 m (lowest m rs) ≡ false
unfolding lowest
lowest-le m [] = ground arith
lowest-le m (r ∷ rs) = ground (arith, lowest-le (lower r m) rs)

lowest-Lives : (m : ℕ) (rs : List Rr) → All (Lives (lowest m rs)) rs
unfolding lowest
lowest-Lives m [] = tt
lowest-Lives m (r ∷ rs) = (ground (arith, lowest-le (lower r m) rs), lowest-Lives (lower r m) rs)

-- The bound, or the time to live of a record that is not OPT.
abbrev pub Occurs : ℕ → ℕ → List Rr → Type 0
Occurs v m [] = v ≡ m
Occurs v m (r ∷ rs) = ((v ≡ r.rr.ttl) × (r.rr.type ≢ type_opt)) ⊎ Occurs v m rs

Occurs-bound : (v m : ℕ) (rs : List Rr) → v ≡ m → Occurs v m rs
Occurs-bound v m [] e = e
Occurs-bound v m (r ∷ rs) e = inr (Occurs-bound v m rs e)

Occurs-split : (v b : ℕ) (rs : List Rr) → Occurs v b rs → (v ≡ b) ⊎ ((m : ℕ) → Occurs v m rs)
Occurs-split v b [] e = inl e
Occurs-split v b (r ∷ rs) (inl h) = inr (λ m. inl h)
Occurs-split v b (r ∷ rs) (inr h) = elim (Occurs-split v b rs h) [
  | inl e ↦ inl e
  | inr f ↦ inr (λ m. inr (f m))
]

Occurs-lower :
    (v m : ℕ) (r : Rr) → v ≡ lower r m → ((v ≡ r.rr.ttl) × (r.rr.type ≢ type_opt)) ⊎ (v ≡ m)
Occurs-lower v m r e = ground arith

Occurs-weaken : (v m : ℕ) (r : Rr) (rs : List Rr) → Occurs v (lower r m) rs → Occurs v m (r ∷ rs)
Occurs-weaken v m r rs h = elim (Occurs-split v (lower r m) rs h) [
  | inr f ↦ inr (f m)
  | inl e ↦ elim (Occurs-lower v m r e) [
    | inl here ↦ inl here
    | inr b ↦ inr (Occurs-bound v m rs b)
  ]
]

lowest-Occurs : (m : ℕ) (rs : List Rr) → Occurs (lowest m rs) m rs
unfolding lowest
lowest-Occurs m [] = refl
lowest-Occurs m (r ∷ rs) =
    Occurs-weaken (lowest (lower r m) rs) m r rs (lowest-Occurs (lower r m) rs)

-- For a response that is not truncated, has the code `noerror` or `nxdomain` and holds a record at
-- all, whose one question, of the class `internet`, and records can be read: the result is the
-- time to live of one of its records that is not the pseudo record OPT, or the largest 32-bit number, and
-- no such record has a lower one. Times are compared as the signed numbers of 32 bits that they stand
-- for: where one is 2 ^ 31 or more, it is a negative number and lower than all others, and the result is
-- such a number, although the source asserts that the result is not negative.
pub answer_min_ttl-lowest :
    (p : Packet) (off : ℕ) (last : RrHeader) (rs : List Rr)
    → Reads p off last rs
    → (header p).tc ≡ false
    → (header p).qr ≡ true
    → ((header p).rcode ≡ 0) ⊎ ((header p).rcode ≡ 3)
    → record_count (header p) ≢ 0
    → last.class ≡ 1
    → (m : ℕ) × (answer_min_ttl p ≡ ok m) × All (Lives m) rs × Occurs m int32_max rs
unfolding answer_min_ttl answers_min_ttl
answer_min_ttl-lowest p off last rs reads tc qr code some_rr class =
    let loop = min_ttl_loop-lowest (record_count (header p)) off int32_max p reads.records in
    let total : (record_count (header p) == 0) ≡ false = ground arith in
    (
      lowest int32_max rs,
      rw (tc, qr, total, reads.questions, class, loop) (ground arith),
      lowest-Lives int32_max rs,
      lowest-Occurs int32_max rs,
    )

-- A truncated message, one with a code other than `noerror` and `nxdomain`, a query, and a
-- message with no records at all give 0, whatever else the message holds.
pub answer_min_ttl_zero :
    (p : Packet)
    → ((header p).tc ≡ true)
      ⊎ (((header p).rcode ≢ 0) × ((header p).rcode ≢ 3))
      ⊎ ((header p).qr ≡ false)
      ⊎ (record_count (header p) ≡ 0)
    → answer_min_ttl p ≡ ok 0
unfolding answer_min_ttl
answer_min_ttl_zero p h = ground arith

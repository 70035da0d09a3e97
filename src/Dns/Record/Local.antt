-- ===== src/Dns/Record/Local.antt =====
-- Where records lie in a message, and which bytes they depend on.
use native.Mathlib.Nat.{mod-eq_of_lt, le_refl}
use cdns.Dns.Constants.{header_size}
use cdns.Dns.Header.{header}
use cdns.Dns.Header.Laws.{header-local}
use cdns.Dns.Name.{get_labels, get_rr_name}
use cdns.Dns.Name.Bounds.{labels_advance, labels-local, get_rr_name_bounds}
use cdns.Dns.Record.{
  RrHeader, Rr, question_at, get_rr_question, rr_at, record_at, get_rr, Question, get_question,
  skip_questions, get_rrs,
}
use cdns.Network.Packet.{Packet, IsPacket}
use cdns.Prelude.{
  leb, ◌==◌, tests, Bool-cases, Bytes, slice, Agree, slice-ext, not_single_question, ok,
  Result-cases, guard, >>=-eq-ok, ℕ, zero, suc, ◌+◌, ◌≤◌, ◌<◌, ◌≡◌, refl, ◌∙◌, inl, inr, List, [],
  ◌∷◌, arith,
}

pub get_rr_name-local :
    (off : ℕ) (p q : Packet) {r : ℕ × Bytes}
    → IsPacket p
    → p.size ≤ q.size
    → get_rr_name off p ≡ ok r
    → ((i : ℕ) → off ≤ i → i < r.0 → p.bytes i ≡ q.bytes i)
    → get_rr_name off q ≡ ok r
unfolding get_rr_name
get_rr_name-local off p q {r} v s e a = elim (Bool-cases (leb p.size (off + 1))) [
  | inl short ↦ ground arith
  | inr long ↦ elim (Result-cases (get_labels (suc p.size) p.bytes p.size off [])) [
    | inl (name, f) ↦
        let b = get_rr_name_bounds off p v e in
        let n : name.0 ≡ r.0 = ground (
          arith,
          mod-eq_of_lt {n = name.0} {m = 65536},
          labels_advance (suc p.size) p.bytes p.size off [] {r = name},
        ) in
        let g =
          labels-local (suc p.size) (suc q.size) p.bytes q.bytes p.size q.size off [] {r = name}
            (omega arith) s (omega tests) f (λ i le lt. a i le (omega arith)) in
        ground (arith, g)
    | inr (x, f) ↦ ground arith
  ]
]

-- Where a record stands: its name ends at `n`, its header is there, and its data behind that.
pub record RecordAt (p : Packet) (n : ℕ) (r : Rr) : Type 0 where
  pub end_at : n + 10 + r.rr.rdlength ≡ r.next
  pub inside : r.next ≤ p.size
  pub fields : r.rr ≡ rr_at p.bytes n
  pub data_at : r.rdata ≡ slice p.bytes (n + 10) r.rr.rdlength

record_at-RecordAt :
    (p : Packet) (name : ℕ × Bytes) {r : Rr}
    → IsPacket p
    → record_at p name ≡ ok r
    → RecordAt p name.0 r × (r.owner ≡ name.1)
unfolding record_at
record_at-RecordAt p name {r} v e =
    ground (arith, mod-eq_of_lt {n = name.0 + 10 + (rr_at p.bytes name.0).rdlength} {m = 65536})

pub RecordAt-record_at :
    (p : Packet) (n : ℕ) (r : Rr) → IsPacket p → RecordAt p n r → record_at p (n, r.owner) ≡ ok r
unfolding record_at
RecordAt-record_at p n r v a =
    ground (arith, mod-eq_of_lt {n = n + 10 + (rr_at p.bytes n).rdlength} {m = 65536})

-- A record that is read lies inside the message, its data between its header and its end.
pub get_rr_bounds :
    (off : ℕ) (p : Packet) {r : Rr}
    → IsPacket p
    → get_rr off p ≡ ok r
    → (n : ℕ) × (get_rr_name off p ≡ ok (n, r.owner)) × (off < n) × RecordAt p n r
unfolding get_rr
get_rr_bounds off p {r} v e =
    let (name, f, g) = >>=-eq-ok (get_rr_name off p) (record_at p) e in
    let b = get_rr_name_bounds off p v f in
    let a = record_at-RecordAt p name v g in (name.0, cc (f, a.1), b.0, a.0)

RecordAt-local :
    (p q : Packet) (n : ℕ) (r : Rr)
    → p.size ≤ q.size
    → RecordAt p n r
    → ((i : ℕ) → n ≤ i → i < r.next → p.bytes i ≡ q.bytes i)
    → RecordAt q n r
RecordAt-local p q n r s at a = record {
  end_at = at.end_at;
  inside = omega (arith, at, s);
  fields = ground (
    arith,
    at,
    a n,
    a (n + 1),
    a (n + 2),
    a (n + 2 + 1),
    a (n + 4),
    a (n + 4 + 1),
    a (n + 4 + 2),
    a (n + 4 + 2 + 1),
    a (n + 8),
    a (n + 8 + 1),
  );
  data_at =
      at.data_at
      ∙ slice-ext p.bytes q.bytes (n + 10) r.rr.rdlength
          (λ j le lt. a j (omega arith) (omega (arith, at)));
}

-- A record depends on its own bytes alone.
pub get_rr-local :
    (off : ℕ) (p q : Packet) {r : Rr}
    → IsPacket p
    → IsPacket q
    → p.size ≤ q.size
    → get_rr off p ≡ ok r
    → ((i : ℕ) → off ≤ i → i < r.next → p.bytes i ≡ q.bytes i)
    → get_rr off q ≡ ok r
unfolding get_rr
get_rr-local off p q {r} vp vq s e a =
    let (n, f, lt, at) = get_rr_bounds off p vp e in
    let name = get_rr_name-local off p q vp s f (λ i le h. a i le (omega (arith, at))) in
    let at' = RecordAt-local p q n r s at (λ i le h. a i (omega arith) h) in
    rw name (RecordAt-record_at q n r vq at')

pub get_rr-advances :
    (off : ℕ) (p : Packet) {r : Rr}
    → IsPacket p
    → get_rr off p ≡ ok r
    → (off < r.next) × (r.next ≤ p.size)
get_rr-advances off p {r} v e =
    let (n, f, lt, at) = get_rr_bounds off p v e in (omega (arith, at), at.inside)

pub get_rrs-local :
    (k off : ℕ) (p q : Packet) {rs : List Rr}
    → IsPacket p
    → IsPacket q
    → p.size ≤ q.size
    → get_rrs k off p ≡ ok rs
    → ((i : ℕ) → off ≤ i → i < p.size → p.bytes i ≡ q.bytes i)
    → get_rrs k off q ≡ ok rs
unfolding get_rrs
get_rrs-local zero off p q vp vq s e a = e
get_rrs-local (suc k) off p q {rs} vp vq s e a =
    let (r, f, g) = >>=-eq-ok (get_rr off p) _ e in
    let (rest, f', g') = >>=-eq-ok (get_rrs k r.next p) (λ xs. ok (r ∷ xs)) g in
    let adv = get_rr-advances off p vp f in
    let one = get_rr-local off p q vp vq s f (λ i le lt. a i le (omega arith)) in
    rw (one, get_rrs-local k r.next p q vp vq s f' (λ i le lt. a i (omega arith) lt)) g'

question_at-next :
    (p : Packet) (name : ℕ × Bytes) {r : Rr}
    → IsPacket p
    → question_at p name ≡ ok r
    → (r.next ≡ name.0 + 4) × (r.next ≤ p.size)
unfolding question_at
question_at-next p name {r} v e = ground (arith, mod-eq_of_lt {n = name.0 + 4} {m = 65536})

question_at-local :
    (p q : Packet) (name : ℕ × Bytes) {r : Rr}
    → IsPacket p
    → p.size ≤ q.size
    → question_at p name ≡ ok r
    → ((i : ℕ) → name.0 ≤ i → i < r.next → p.bytes i ≡ q.bytes i)
    → question_at q name ≡ ok r
unfolding question_at
question_at-local p q name {r} v s e a =
    let w = question_at-next p name v e in
    ground (arith, w, a name.0, a (name.0 + 1), a (name.0 + 2), a (name.0 + 2 + 1))

-- A question depends on its own bytes alone, and lies inside the message.
pub get_rr_question-local :
    (off : ℕ) (p q : Packet) {r : Rr}
    → IsPacket p
    → p.size ≤ q.size
    → get_rr_question off p ≡ ok r
    → ((i : ℕ) → off ≤ i → i < r.next → p.bytes i ≡ q.bytes i)
    → (get_rr_question off q ≡ ok r) × (off < r.next) × (r.next ≤ p.size)
unfolding get_rr_question
get_rr_question-local off p q {r} vp s e a =
    let (name, f, g) = >>=-eq-ok (get_rr_name off p) (question_at p) e in
    let b = get_rr_name_bounds off p vp f in
    let w = question_at-next p name vp g in
    let same = get_rr_name-local off p q vp s f (λ i le h. a i le (omega arith)) in
    (rw same (question_at-local p q name vp s g (λ i le h. a i (omega arith) h)), omega arith, w.1)

pub skip_questions-local :
    (k off : ℕ) (last : RrHeader) (p q : Packet) {r : ℕ × RrHeader}
    → IsPacket p
    → p.size ≤ q.size
    → skip_questions k off last p ≡ ok r
    → ((i : ℕ) → off ≤ i → i < r.0 → p.bytes i ≡ q.bytes i)
    → (skip_questions k off last q ≡ ok r) × (off ≤ r.0)
unfolding skip_questions
skip_questions-local zero off last p q {r} vp s e a = (e, ground arith)
skip_questions-local (suc k) off last p q {r} vp s e a =
    let (x, f, g) = >>=-eq-ok (get_rr_question off p) _ e in
    let adv = get_rr_question-local off p p vp (le_refl p.size) f (λ _ _ _. refl) in
    let far = skip_questions-local k x.next x.rr p p vp (le_refl p.size) g (λ _ _ _. refl) in
    let one = get_rr_question-local off p q vp s f (λ i le lt. a i le (omega arith)) in
    let rest = skip_questions-local k x.next x.rr p q vp s g (λ i le lt. a i (omega arith) lt) in
    (rw one.0 rest.0, omega arith)

-- The question of a message depends on the bytes of the message alone.
pub get_question-local :
    (p q : Packet) {o : Question}
    → IsPacket p
    → p.size ≡ q.size
    → Agree p.size p.bytes q.bytes
    → header_size ≤ p.size
    → get_question p ≡ ok o
    → get_question q ≡ ok o
unfolding get_question
get_question-local p q {o} v s a long e =
    let (_, one, e1) = >>=-eq-ok (guard ((header p).qdcount == 1) not_single_question) _ e in
    let (r, f, g) = >>=-eq-ok (get_rr_question header_size p) _ e1 in
    let within = get_rr_question-local header_size p p v (le_refl p.size) f (λ _ _ _. refl) in
    let same =
      get_rr_question-local header_size p q v (omega (arith, s)) f
        (λ i le lt. a i (omega (arith, lt, within.2))) in
    let heads = header-local p q (λ i lt. a i (omega (arith, lt, long))) in
    rw (← heads, one, same.0) g

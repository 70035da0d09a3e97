-- ===== src/Dns/Answer/Added.antt =====
-- What `add_answer` adds to a message, `put_answer` being shut.
use native.Mathlib.Nat.{le_of_eq, mod-eq_of_lt, le_refl}
use cdns.Dns.Answer.{skip_rrs, put_answer, ensure_room, answered, add_answer}
use cdns.Dns.Answer.Written.{new_rr, put_answer-below, put_answer-get_rr}
use cdns.Dns.Constants.{max_size, header_size}
use cdns.Dns.Header.{IsHeader, header, set_header}
use cdns.Dns.Header.Laws.{
  IsMemory, header-IsHeader, header-set_header_at, header-local, set_header-IsPacket,
  set_header-reserved,
}
use cdns.Dns.Record.{RrHeader, Rr, get_rr, skip_questions, get_rrs}
use cdns.Dns.Record.Local.{get_rr-local, get_rr-advances, get_rrs-local, skip_questions-local}
use cdns.Dns.Ttl.{no_header}
use cdns.Dns.Ttl.Adjust.{get_rrs-cons, Reads}
use cdns.Network.Packet.{Packet, IsPacket, reserve}
use cdns.Prelude.{
  le→ltb, Bytes, length, ok, >>=-eq-ok, ℕ, zero, suc, ◌+◌, ◌≤◌, ◌<◌, ◌≡◌, refl, sym, ap, ◌∙◌, true,
  List, [], ◌∷◌, ◌++◌, arith,
}

skip_rrs-local :
    (k off : ℕ) (p q : Packet) {e : ℕ}
    → IsPacket p
    → IsPacket q
    → p.size ≤ q.size
    → skip_rrs k off p ≡ ok e
    → ((i : ℕ) → off ≤ i → i < p.size → p.bytes i ≡ q.bytes i)
    → (skip_rrs k off q ≡ ok e) × (off + k ≤ e)
unfolding skip_rrs
skip_rrs-local zero off p q {e} vp vq s run a = (run, ground arith)
skip_rrs-local (suc k) off p q {e} vp vq s run a =
    let (r, f, g) = >>=-eq-ok (get_rr off p) _ run in
    let adv = get_rr-advances off p vp f in
    let one = get_rr-local off p q vp vq s f (λ i le lt. a i le (omega arith)) in
    let rest = skip_rrs-local k r.next p q vp vq s g (λ i le lt. a i (omega arith) lt) in
    (rw one rest.0, omega (arith, rest.1))

-- A record behind the others.
get_rrs-snoc :
    (k off : ℕ) (p : Packet) {rs : List Rr} {e : ℕ} {r : Rr}
    → get_rrs k off p ≡ ok rs
    → skip_rrs k off p ≡ ok e
    → get_rr e p ≡ ok r
    → get_rrs (suc k) off p ≡ ok (rs ++ r ∷ [])
unfolding get_rrs skip_rrs
get_rrs-snoc zero off p {rs} {e} {r} reads run last =
    let o : off ≡ e = ground arith in rw (o, last) (ground arith)
get_rrs-snoc (suc k) off p {rs} {e} {r} reads run last =
    let (x, rest, split, f, f') = get_rrs-cons k off p reads in
    let (y, g, g') = >>=-eq-ok (get_rr off p) (λ z. skip_rrs k z.next p) run in
    let same : skip_rrs k x.next p ≡ ok e = ground arith in
    rw (f, get_rrs-snoc k x.next p f' same last, split) refl

ensure_room_lem :
    (n : ℕ) (p : Packet)
    → n < 65536
    → IsPacket p
    → IsMemory p.bytes
    → IsPacket (ensure_room n p)
      × ((ensure_room n p).size ≡ p.size)
      × (n ≤ (ensure_room n p).reserved)
      × ((i : ℕ) → i < p.size → (ensure_room n p).bytes i ≡ p.bytes i)
      × IsMemory (ensure_room n p).bytes
unfolding ensure_room reserve
ensure_room_lem n p h v m =
    (ground arith, ground arith, ground arith, λ i lt. ground arith, λ i. ground (arith, m i))

-- The message with the new header, before the record is written.
record Prepared (p p2 : Packet) (n off : ℕ) (last : RrHeader) (rs : List Rr) : Type 0 where
  valid : IsPacket p2
  same_size : p2.size ≡ p.size
  room : n ≤ p2.reserved
  head : header p2 ≡ answered (header p)
  questions : skip_questions (header p).qdcount header_size no_header p2 ≡ ok (off, last)
  records : get_rrs (header p).ancount off p2 ≡ ok rs
  end_at : skip_rrs (header p).ancount off p2 ≡ ok p.size
  low : 12 ≤ off
  few : off + (header p).ancount ≤ p.size

prepared :
    (n : ℕ) (p : Packet) (off : ℕ) (last : RrHeader) (rs : List Rr)
    → n < 65536
    → IsPacket p
    → IsMemory p.bytes
    → Reads p off last rs
    → (header p).nscount ≡ 0
    → (header p).arcount ≡ 0
    → skip_rrs (header p).ancount off p ≡ ok p.size
    → (header (ensure_room n p) ≡ header p)
      × Prepared p (set_header (answered (header p)) (ensure_room n p)) n off last rs
prepared n p off last rs small v m reads ns ar end =
    let p1 = ensure_room n p in
    let (v1, s1, room1, same1, m1) = ensure_room_lem n p small v m in
    let far =
      skip_questions-local (header p).qdcount header_size no_header p p v (le_refl p.size)
        reads.questions (λ _ _ _. refl) in
    let few = skip_rrs-local (header p).ancount off p p v v (le_refl p.size) end (λ _ _ _. refl) in
    let h1 : header p1 ≡ header p =
      header-local p1 p (λ i lt. same1 i (omega (arith, far.1, few.1))) in
    let s =
      header-set_header_at (answered (header p)) p1 (answered-IsHeader (header-IsHeader p m)) in
    let p2 = set_header (answered (header p)) p1 in
    let v2 = set_header-IsPacket (answered (header p)) p1 v1 in
    let size2 : p2.size ≡ p.size = s.2 ∙ s1 in
    let same2 = λ (i : ℕ) (le : 12 ≤ i) (lt : i < p.size). sym (s.1 i le ∙ same1 i lt) in
    let records : get_rrs (header p).ancount off p ≡ ok rs =
      ap (λ k. get_rrs k off p) (omega (arith, ns, ar)) ∙ reads.records in
    (
      h1,
      record {
        valid = v2;
        same_size = size2;
        room = rw (set_header-reserved (answered (header p)) p1) room1;
        head = s.0;
        questions =
            (skip_questions-local (header p).qdcount header_size no_header p p2 v
              (le_of_eq (sym size2)) reads.questions
              (λ i le lt. same2 i le (omega (arith, few.1)))).0;
        records =
            get_rrs-local (header p).ancount off p p2 v v2 (le_of_eq (sym size2)) records
              (λ i le lt. same2 i (omega (arith, far.1)) lt);
        end_at =
            (skip_rrs-local (header p).ancount off p p2 v v2 (le_of_eq (sym size2)) end
              (λ i le lt. same2 i (omega (arith, far.1)) lt)).0;
        low = far.1;
        few = few.1;
      },
    )
  where
    answered-IsHeader : IsHeader (header p) → IsHeader (answered (header p))
    answered-IsHeader b = omega arith

-- Writing the record into the prepared message.
written :
    (rdata : Bytes) (typ ttl : ℕ) (p p2 : Packet) (off : ℕ) (last : RrHeader) (rs : List Rr)
    → IsPacket p
    → typ < 65536
    → ttl < 4294967296
    → (header p).nscount ≡ 0
    → (header p).arcount ≡ 0
    → Prepared p p2 (p.size + (12 + length rdata)) off last rs
    → let p' = put_answer rdata typ ttl p.size p2 in
      (header p' ≡ record (header p) { ancount = (header p).ancount + 1; qr = true })
      × Reads p' off last (rs ++ new_rr rdata typ ttl p.size ∷ [])
      × IsPacket p'
      × (p'.size ≡ p.size + (12 + length rdata))
written rdata typ ttl p p2 off last rs v typ_ok range ns ar w =
    let p' = put_answer rdata typ ttl p.size p2 in
    let (v', s', new) =
      put_answer-get_rr rdata typ ttl p.size p2 typ_ok range (omega (arith, w.low, w.few)) w.room
        w.valid in
    let below = λ (i : ℕ) (lt : i < p.size). sym (put_answer-below rdata typ ttl p.size p2 i lt) in
    let grows : p2.size ≤ p'.size = omega (arith, s', w.same_size) in
    let count : answered (header p)
        ≡ record (header p) { ancount = (header p).ancount + 1; qr = true } =
      ap (λ k. record (header p) { ancount = k; qr = true })
        (mod-eq_of_lt (omega (arith, w.few, w.low))) in
    let h' =
      header-local p' p2 (λ i lt. sym (below i (omega (arith, w.low, w.few)))) ∙ w.head ∙ count in
    let q' =
      skip_questions-local (header p).qdcount header_size no_header p2 p' w.valid grows w.questions
        (λ i _ lt. below i (omega (arith, w.few))) in
    let r' =
      get_rrs-local (header p).ancount off p2 p' w.valid v' grows w.records
        (λ i _ lt. below i (omega (arith, w.same_size))) in
    let e' =
      skip_rrs-local (header p).ancount off p2 p' w.valid v' grows w.end_at
        (λ i _ lt. below i (omega (arith, w.same_size))) in
    let all = get_rrs-snoc (header p).ancount off p' r' e'.0 new in
    let total : (header p).ancount + 1 + (header p).arcount + (header p).nscount
        ≡ suc (header p).ancount =
      omega (arith, ns, ar) in
    (h', record { questions = rw h' q'.0; records = rw (h', total) all }, v', s')

-- An answer to a message of one question whose answers are its last bytes, with data that the
-- message has room for: `add_answer` succeeds; the new message has one answer more, is marked as a
-- response and otherwise has the same header, the same question and the same records, and behind
-- them a record of the given type, time to live and data, of the class `internet`, that ends the message.
pub add_answer_lem :
    (rdata : Bytes) (typ ttl : ℕ) (p : Packet) (off : ℕ) (last : RrHeader) (rs : List Rr)
    → IsPacket p
    → IsMemory p.bytes
    → typ < 65536
    → ttl < 4294967296
    → p.size + (12 + length rdata) ≤ max_size
    → (header p).qdcount ≡ 1
    → (header p).nscount ≡ 0
    → (header p).arcount ≡ 0
    → Reads p off last rs
    → skip_rrs (header p).ancount off p ≡ ok p.size
    → (p' : Packet) × (add_answer rdata typ ttl p ≡ ok p')
      × (header p' ≡ record (header p) { ancount = (header p).ancount + 1; qr = true })
      × Reads p' off last (rs ++ new_rr rdata typ ttl p.size ∷ [])
      × IsPacket p'
      × (p'.size ≡ p.size + (12 + length rdata))
unfolding add_answer
add_answer_lem rdata typ ttl p off last rs v m typ_ok range room qd ns ar reads end =
    let n = p.size + (12 + length rdata) in
    let (same, w) = prepared n p off last rs (omega arith) v m reads ns ar end in
    let p2 = set_header (answered (header p)) (ensure_room n p) in
    let fits = le→ltb max_size n room in
    let (h', reads', v', s') = written rdata typ ttl p p2 off last rs v typ_ok range ns ar w in
    (
      put_answer rdata typ ttl p.size p2,
      rw (same, fits, w.questions, w.end_at, qd) refl,
      h',
      reads',
      v',
      s',
    )

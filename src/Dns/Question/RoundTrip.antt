-- ===== src/Dns/Question/RoundTrip.antt =====
-- A query that is built reads back as what it was built from.
use mathlib.Core.Path.{subst₂}
use cdns.Dns.Constants.{max_size, header_size, class_internet}
use cdns.Dns.Header.{header, set_header}
use cdns.Dns.Header.Laws.{header-set_header_at, header-local}
use cdns.Dns.Name.{get_rr_name}
use cdns.Dns.Question.{no_packet, question_head, fill, close_name, finish_query, new_query}
use cdns.Dns.Question.Fill.{
  IsLabel, dotted, joined, Encodes, Encodes-local, Filled, fill_dotted, fill_joined,
}
use cdns.Dns.Question.Parse.{get_labels-Encodes}
use cdns.Dns.Record.{question_at, get_rr_question, get_question}
use cdns.Network.Packet.{Packet, IsPacket, reserve}
use cdns.Prelude.{
  le→ltb, Bytes, Memory, write, write16, length, length-append, All, ok, ◌>>=◌, >>=-chain, ℕ, suc,
  ◌+◌, ◌≤◌, ◌<◌, ◌≡◌, refl, sym, ap, ◌∙◌, subst, ◌⊎◌, inl, inr, List, [], ◌∷◌, arith,
}

-- A host name of at least one label, with a dot at the end or without one.
abbrev pub IsHostname : Bytes → List Bytes → Type 0
IsHostname h ls =
    All IsLabel ls
    × (0 < length ls)
    × (length (dotted ls) ≤ 256)
    × ((h ≡ dotted ls)
        ⊎ ((l : Bytes) × (rest : List Bytes) × (ls ≡ l ∷ rest) × (h ≡ joined l rest)))

length-joined : (l : Bytes) (ls : List Bytes) → length (joined l ls) + 1 ≡ length (dotted (l ∷ ls))
unfolding joined dotted
length-joined l [] = omega (arith, length-append l (b'.' ∷ []))
length-joined l (k ∷ ls) = omega (
  arith,
  length-append l (b'.' ∷ joined k ls),
  length-append l (b'.' ∷ dotted (k ∷ ls)),
  length-joined k ls,
)

hostname-Filled :
    (h : Bytes) (ls : List Bytes) (b : Memory)
    → IsHostname h ls
    → Filled 0 h ls b × (length h ≤ 256)
hostname-Filled h ls b (good, _, short, inl e) =
    (subst (λ x. Filled 0 x ls b) (sym e) (fill_dotted 0 ls b good), omega (arith, ap length e))
hostname-Filled h ls b (good, _, short, inr (l, rest, e, e')) =
    let good' : All IsLabel (l ∷ rest) = subst (All IsLabel) e good in
    (
      subst₂ (λ x y. Filled 0 x y b) (sym e') (sym e) (fill_joined 0 l rest b good'.0 good'.1),
      omega (arith, ap length e', length-joined l rest, ap (λ x. length (dotted x)) e),
    )

-- The same, with the sums that begin with zero done.
abbrev Named : Bytes → List Bytes → Memory → Type 0
Named h ls b =
    (m : Memory) × ((fill 0 0 h b >>= close_name (length h)) ≡ ok (length (dotted ls), m))
    × Encodes m 12 ls
    × (m (12 + length (dotted ls)) ≡ 0)
    × ((j : ℕ) → j < 12 → m j ≡ b j)

Filled-Named : (h : Bytes) (ls : List Bytes) (b : Memory) → Filled 0 h ls b → Named h ls b
Filled-Named h ls b (m, run, enc, z, low) =
    let e : length h ≡ 0 + length h = omega arith in
    let e' : 0 + length (dotted ls) ≡ length (dotted ls) = omega arith in
    (
      m,
      ap (λ k. fill 0 0 h b >>= close_name k) e ∙ run ∙ ap (λ k. ok (k, m)) e',
      enc,
      ap (λ k. m (12 + k)) (sym e') ∙ z,
      low,
    )

-- The message that the constructor makes of a name that is filled in.
abbrev query_packet : ℕ → List Bytes → Memory → Packet
query_packet typ ls m = record {
  size = length (dotted ls) + 17;
  reserved = max_size;
  bytes =
      write16 (write16 m (header_size + length (dotted ls) + 1) typ)
        (header_size + length (dotted ls) + 1 + 2) class_internet;
}

finish_query-packet :
    (typ : ℕ) (ls : List Bytes) (m : Memory)
    → length (dotted ls) ≤ 256
    → finish_query typ (length (dotted ls), m) ≡ ok (query_packet typ ls m)
unfolding finish_query
finish_query-packet typ ls m short = ground arith

query_packet-name :
    (typ : ℕ) (ls : List Bytes) (m : Memory)
    → All IsLabel ls
    → length (dotted ls) ≤ 256
    → Encodes m 12 ls
    → m (12 + length (dotted ls)) ≡ 0
    → get_rr_name 12 (query_packet typ ls m) ≡ ok (length (dotted ls) + 13, dotted ls)
unfolding get_rr_name
query_packet-name typ ls m good short enc z =
    let p = query_packet typ ls m in
    let enc' = Encodes-local m p.bytes 12 ls enc (λ i le lt. ground arith) in
    let z' : p.bytes (12 + length (dotted ls)) ≡ 0 = ground arith in
    let parse =
      get_labels-Encodes (suc p.size) p.bytes p.size 12 [] ls good enc' z' (omega arith)
        (omega arith) (omega arith) in
    ground (arith, parse)

query_packet-question :
    (typ : ℕ) (ls : List Bytes) (m : Memory)
    → typ < 65536
    → All IsLabel ls
    → length (dotted ls) ≤ 256
    → Encodes m 12 ls
    → m (12 + length (dotted ls)) ≡ 0
    → get_rr_question 12 (query_packet typ ls m)
      ≡ ok (record {
        next = length (dotted ls) + 17;
        rr = record { type = typ; class = 1; ttl = 0; rdlength = 0 };
        owner = dotted ls;
        rdata = [];
      })
unfolding get_rr_question question_at
query_packet-question typ ls m typ_ok good short enc z =
    rw (query_packet-name typ ls m good short enc z) (ground arith)

-- A query that is built from a host name of labels, each of 1 to 63 letters, digits and dashes, at
-- most 256 characters with a dot behind each label, whether or not it is given with its last dot, and of a type and an
-- identifier of 16 bits: the constructor succeeds, and the message holds one question and nothing
-- else, that reads back as the name with its last dot, the class `internet` and the type; the identifier
-- reads back too, and the message ends with its question.
pub get_question-new_query :
    (h : Bytes) (ls : List Bytes) (typ id : ℕ)
    → IsHostname h ls
    → typ < 65536
    → id < 65536
    → (p : Packet) × (new_query h typ id ≡ ok p)
      × (get_question p ≡ ok (record { owner = dotted ls; class = 1; type = typ }))
      × (header p ≡ question_head id)
      × (p.size ≡ 12 + length (dotted ls) + 5)
      × IsPacket p
unfolding new_query get_question
get_question-new_query h ls typ id name typ_ok id_ok =
    let p0 = set_header (question_head id) (reserve max_size no_packet) in
    let (filled, short) = hostname-Filled h ls (write p0.bytes header_size 0) name in
    let (m, run, enc, z, low) = Filled-Named h ls (write p0.bytes header_size 0) filled in
    let p = query_packet typ ls m in
    let h0 = header-set_header_at (question_head id) (reserve max_size no_packet) (omega arith) in
    let hp : header p ≡ question_head id =
      header-local p p0 (λ i lt. ground (arith, low i)) ∙ h0.0 in
    let built =
      >>=-chain (fill 0 0 h (write p0.bytes header_size 0)) (close_name (length h))
        (finish_query typ) run
      ∙ finish_query-packet typ ls m name.2 in
    (
      p,
      rw (le→ltb 256 (length h) short) built,
      rw hp (rw (query_packet-question typ ls m typ_ok name.0 name.2 enc z) refl),
      hp,
      omega arith,
      omega arith,
    )

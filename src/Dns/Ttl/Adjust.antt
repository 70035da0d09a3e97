-- ===== src/Dns/Ttl/Adjust.antt =====
-- `adjust_id_and_ttl` changes the identifier and the times to live, and nothing else that a message
-- is read for.
use native.Mathlib.Nat.{le_of_eq}
use cdns.Dns.Constants.{header_size, type_opt}
use cdns.Dns.Header.{IsHeader, header, set_header}
use cdns.Dns.Header.Laws.{
  IsMemory, header-IsHeader, header-set_header_at, header-local, set_header-IsPacket,
  set_header-size,
}
use cdns.Dns.Record.{RrHeader, Rr, rr_at, record_at, get_rr, skip_questions, get_rrs}
use cdns.Dns.Record.Local.{
  get_rr_name-local, RecordAt, RecordAt-record_at, get_rr_bounds, get_rr-local, get_rr-advances,
  get_rrs-local, skip_questions-local,
}
use cdns.Dns.Ttl.{no_header, record_count, set_ttl, adjust_loop, adjust_id_and_ttl}
use cdns.Network.Packet.{Packet, IsPacket}
use cdns.Prelude.{
  ◌==◌, if◌then◌else◌, write32, slice-ext, length-slice, length, ok, >>=-eq-ok, ℕ, zero, suc, ◌+◌,
  ◌-◌, ◌≤◌, ◌<◌, ◌≡◌, refl, sym, ap, ◌∙◌, subst, ◌⊎◌, inl, inr, List, ◌∷◌, map, arith,
}

-- The record with another time to live, unless it is the pseudo record OPT.
abbrev pub retime : ℕ → Rr → Rr
retime ttl r = if r.rr.type == type_opt then r else record r { rr = record (r.rr) { ttl = ttl } }

abbrev put_ttl : ℕ → ℕ → Rr → Packet → Packet
put_ttl n ttl r p =
    if r.rr.type == type_opt then p else record p { bytes = write32 p.bytes (n + 4) ttl }

set_ttl-at :
    (ttl : ℕ) (r : Rr) (p : Packet) (n : ℕ) → RecordAt p n r → set_ttl ttl r p ≡ put_ttl n ttl r p
unfolding set_ttl
set_ttl-at ttl r p n at =
    let e : r.next - length r.rdata - 10 + 4 ≡ n + 4 =
      omega (arith, at, ap length at.data_at, length-slice p.bytes (n + 10) r.rr.rdlength) in
    ap (λ k. if r.rr.type == type_opt then p else record p { bytes = write32 p.bytes k ttl }) e

put_ttl-bytes :
    (n ttl : ℕ) (r : Rr) (p : Packet) (i : ℕ)
    → (i < n + 4) ⊎ (n + 8 ≤ i)
    → (put_ttl n ttl r p).bytes i ≡ p.bytes i
put_ttl-bytes n ttl r p i h = ground arith

put_ttl-IsPacket :
    (n ttl : ℕ) (r : Rr) (p : Packet)
    → IsPacket p
    → IsPacket (put_ttl n ttl r p) × ((put_ttl n ttl r p).size ≡ p.size)
put_ttl-IsPacket n ttl r p v = ground arith

read32-put_ttl :
    (n ttl : ℕ) (r : Rr) (p : Packet)
    → ttl < 4294967296
    → r.rr ≡ rr_at p.bytes n
    → (retime ttl r).rr ≡ rr_at (put_ttl n ttl r p).bytes n
read32-put_ttl n ttl r p range e = ground arith

RecordAt-put_ttl :
    (n ttl : ℕ) (r : Rr) (p : Packet)
    → ttl < 4294967296
    → RecordAt p n r
    → RecordAt (put_ttl n ttl r p) n (retime ttl r)
RecordAt-put_ttl n ttl r p range at = record {
  end_at = ground (arith, at);
  inside = ground (arith, at);
  fields = read32-put_ttl n ttl r p range at.fields;
  data_at = ground (
    arith,
    at,
    slice-ext p.bytes (put_ttl n ttl r p).bytes (n + 10) r.rr.rdlength
        (λ j le lt. sym (put_ttl-bytes n ttl r p j (inr (omega arith)))),
  );
}

-- The record whose time to live is written reads back with it.
get_rr-set_ttl :
    (off ttl : ℕ) (p : Packet) {r : Rr}
    → IsPacket p
    → ttl < 4294967296
    → get_rr off p ≡ ok r
    → get_rr off (set_ttl ttl r p) ≡ ok (retime ttl r)
unfolding get_rr
get_rr-set_ttl off ttl p {r} v range e =
    let (n, f, lt, at) = get_rr_bounds off p v e in
    let v' = put_ttl-IsPacket n ttl r p v in
    let name =
      get_rr_name-local off p (put_ttl n ttl r p) v (le_of_eq (sym v'.1)) f
        (λ i le h. sym (put_ttl-bytes n ttl r p i (inl (omega arith)))) in
    let at' = RecordAt-put_ttl n ttl r p range at in
    let who : (retime ttl r).owner ≡ r.owner = ground arith in
    rw (set_ttl-at ttl r p n at, name)
      (cc (
        ap (λ w. record_at (put_ttl n ttl r p) (n, w)) who,
        RecordAt-record_at (put_ttl n ttl r p) n (retime ttl r) v'.0 at',
      ))

set_ttl-bytes :
    (off ttl : ℕ) (p : Packet) {r : Rr}
    → IsPacket p
    → get_rr off p ≡ ok r
    → IsPacket (set_ttl ttl r p)
      × ((set_ttl ttl r p).size ≡ p.size)
      × ((i : ℕ) → (i < off) ⊎ (r.next ≤ i) → (set_ttl ttl r p).bytes i ≡ p.bytes i)
set_ttl-bytes off ttl p {r} v e =
    let (n, f, lt, at) = get_rr_bounds off p v e in
    let v' = put_ttl-IsPacket n ttl r p v in
    rw (set_ttl-at ttl r p n at)
      (v'.0, v'.1, λ i h. put_ttl-bytes n ttl r p i (omega (arith, h, at, lt)))

-- The loop ends well, and leaves what stands before the records.
abbrev Adjusted : ℕ → ℕ → ℕ → Packet → List Rr → Type 0
Adjusted k off ttl p rs =
    (p' : Packet) × (adjust_loop k off ttl p ≡ ok p')
    × (get_rrs k off p' ≡ ok (map (retime ttl) rs))
    × IsPacket p'
    × (p'.size ≡ p.size)
    × ((i : ℕ) → i < off → p'.bytes i ≡ p.bytes i)

retime-next : (ttl : ℕ) (r : Rr) → (retime ttl r).next ≡ r.next
retime-next ttl r = ground arith

adjust_step :
    (k off ttl : ℕ) (p : Packet) (r : Rr) (rest : List Rr)
    → IsPacket p
    → ttl < 4294967296
    → get_rr off p ≡ ok r
    → get_rrs k r.next p ≡ ok rest
    → Adjusted k r.next ttl (set_ttl ttl r p) rest
    → Adjusted (suc k) off ttl p (r ∷ rest)
unfolding adjust_loop get_rrs
adjust_step k off ttl p r rest v range f f' (p', run, read, v', size, low) =
    let adv = get_rr-advances off p v f in
    let s = set_ttl-bytes off ttl p v f in
    let here =
      get_rr-local off (set_ttl ttl r p) p' s.0 v' (le_of_eq (sym size))
        (get_rr-set_ttl off ttl p v range f)
        (λ i _ lt. sym (low i (omega (arith, retime-next ttl r)))) in
    let rest_read : get_rrs k (retime ttl r).next p' ≡ ok (map (retime ttl) rest) =
      cc (ap (λ n. get_rrs k n p') (retime-next ttl r), read) in
    (
      p',
      rw f run,
      rw (here, rest_read) refl,
      v',
      size ∙ s.1,
      λ i lt. low i (omega arith) ∙ s.2 i (inl lt),
    )

pub get_rrs-cons :
    (k off : ℕ) (p : Packet) {rs : List Rr}
    → get_rrs (suc k) off p ≡ ok rs
    → (r : Rr) × (rest : List Rr) × (rs ≡ r ∷ rest)
      × (get_rr off p ≡ ok r)
      × (get_rrs k r.next p ≡ ok rest)
unfolding get_rrs
get_rrs-cons k off p {rs} e =
    let (r, f, g) = >>=-eq-ok (get_rr off p) _ e in
    let (rest, f', g') = >>=-eq-ok (get_rrs k r.next p) (λ xs. ok (r ∷ xs)) g in
    (r, rest, cc, f, f')

adjust_loop_lem :
    (k off ttl : ℕ) (p : Packet) {rs : List Rr}
    → IsPacket p
    → ttl < 4294967296
    → get_rrs k off p ≡ ok rs
    → Adjusted k off ttl p rs
unfolding adjust_loop get_rrs
adjust_loop_lem zero off ttl p {rs} v range e = (p, refl, ground arith, v, refl, λ _ _. refl)
adjust_loop_lem (suc k) off ttl p {rs} v range e =
    let (r, rest, split, f, f') = get_rrs-cons k off p e in
    let s = set_ttl-bytes off ttl p v f in
    let later =
      get_rrs-local k r.next p (set_ttl ttl r p) v s.0 (le_of_eq (sym s.1)) f'
        (λ i le _. sym (s.2 i (inr le))) in
    let ih = adjust_loop_lem k r.next ttl (set_ttl ttl r p) s.0 range later in
    subst (Adjusted (suc k) off ttl p) (sym split) (adjust_step k off ttl p r rest v range f f' ih)

-- The message is read as a header, the questions and the records behind them.
pub record Reads (p : Packet) (off : ℕ) (last : RrHeader) (rs : List Rr) : Type 0 where
  pub questions : skip_questions (header p).qdcount header_size no_header p ≡ ok (off, last)
  pub records : get_rrs (record_count (header p)) off p ≡ ok rs

-- What a change of the identifier leaves.
set_id-Reads :
    (tid : ℕ) (p : Packet) (off : ℕ) (last : RrHeader) (rs : List Rr)
    → IsPacket p
    → IsMemory p.bytes
    → tid < 65536
    → Reads p off last rs
    → let p1 = set_header (record (header p) { id = tid }) p in
      (header p1 ≡ record (header p) { id = tid }) × Reads p1 off last rs × IsPacket p1 × (12 ≤ off)
set_id-Reads tid p off last rs v m tr reads =
    let h = record (header p) { id = tid } in
    let s = header-set_header_at h p (id-IsHeader (header-IsHeader p m)) in
    let v1 = set_header-IsPacket h p v in
    let q =
      skip_questions-local (header p).qdcount header_size no_header p (set_header h p) v
        (le_of_eq (sym s.2)) reads.questions (λ i le _. sym (s.1 i le)) in
    let r =
      get_rrs-local (record_count (header p)) off p (set_header h p) v v1 (le_of_eq (sym s.2))
        reads.records (λ i le _. sym (s.1 i (omega (arith, q.1)))) in
    (s.0, record { questions = rw s.0 q.0; records = rw s.0 r }, v1, q.1)
  where
    id-IsHeader : IsHeader (header p) → IsHeader (record (header p) { id = tid })
    id-IsHeader b = omega arith

-- On a message that can be read, `adjust_id_and_ttl` succeeds; the new message has the given
-- identifier and is otherwise read with the same header, the same questions and the same records,
-- each with the given time to live but for the pseudo record OPT, and has the same size.
pub adjust_id_and_ttl_lem :
    (tid ttl : ℕ) (p : Packet) (off : ℕ) (last : RrHeader) (rs : List Rr)
    → IsPacket p
    → IsMemory p.bytes
    → tid < 65536
    → ttl < 4294967296
    → Reads p off last rs
    → (p' : Packet) × (adjust_id_and_ttl tid ttl p ≡ ok p')
      × (header p' ≡ record (header p) { id = tid })
      × Reads p' off last (map (retime ttl) rs)
      × IsPacket p'
      × (p'.size ≡ p.size)
unfolding adjust_id_and_ttl
adjust_id_and_ttl_lem tid ttl p off last rs v m tr range reads =
    let p1 = set_header (record (header p) { id = tid }) p in
    let (h1, reads1, v1, far) = set_id-Reads tid p off last rs v m tr reads in
    let n = record_count (header p) in
    let records1 : get_rrs n off p1 ≡ ok rs = rw h1 at reads1.records in
    let questions1 : skip_questions (header p).qdcount header_size no_header p1 ≡ ok (off, last) =
      rw h1 at reads1.questions in
    let (p', run, read, v', size, low) = adjust_loop_lem n off ttl p1 v1 range records1 in
    let h' : header p' ≡ record (header p) { id = tid } =
      header-local p' p1 (λ i lt. low i (omega arith)) ∙ h1 in
    let q' =
      skip_questions-local (header p).qdcount header_size no_header p1 p' v1 (le_of_eq (sym size))
        questions1 (λ i _ lt. sym (low i lt)) in
    (
      p',
      rw questions1 run,
      h',
      record { questions = rw h' q'.0; records = rw h' read },
      v',
      size ∙ set_header-size (record (header p) { id = tid }) p,
    )

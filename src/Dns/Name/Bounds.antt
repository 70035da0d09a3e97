-- ===== src/Dns/Name/Bounds.antt =====
-- `get_rr_name` ends, stays inside the message, and limits the name.
use native.Mathlib.Nat.{mod-eq_of_lt}
use cdns.Dns.Name.{push_label, label_case, get_labels, get_rr_name}
use cdns.Network.Packet.{Packet, IsPacket}
use cdns.Prelude.{
  ltb, leb, if◌then◌else◌, tests, Bool-cases, Bytes, Memory, Agree, length, length-append,
  name_too_long, out_of_fuel, Result, err, ok, Result-cases, >>=-eq-ok, ℕ, zero, suc, ◌+◌, ◌≤◌, ◌<◌,
  ◌≡◌, refl, ap, ◌≢◌, inl, inr, [], ◌∷◌, ◌++◌, arith,
}

push_label-length :
    (n : ℕ) (pkt : Memory) (p : ℕ) (owner : Bytes) {w : Bytes}
    → push_label n pkt p owner ≡ ok w
    → length w ≡ length owner + n
unfolding push_label
push_label-length zero pkt p owner {w} e = ground arith
push_label-length (suc n) pkt p owner {w} e = ground (
  arith,
  push_label-length n pkt (p + 1) (owner ++ pkt p ∷ []) {w = w},
  length-append owner (pkt p ∷ []),
)

abbrev Within : ℕ → ℕ → ℕ × Bytes → Type 0
Within off len r = (off < r.0) × (r.0 ≤ len) × (length r.1 ≤ 256)

labels_bounds :
    (fuel : ℕ) (pkt : Memory) (len off : ℕ) (owner : Bytes) {r : ℕ × Bytes}
    → off < len
    → length owner ≤ 256
    → get_labels fuel pkt len off owner ≡ ok r
    → Within off len r
unfolding get_labels label_case
labels_bounds zero pkt len off owner lt le e = cc
labels_bounds (suc fuel) pkt len off owner {r} lt le e =
    elim (Result-cases (push_label (pkt off) pkt (off + 1) owner)) [
      | inl (pushed, q) ↦
          ground
            (arith, labels_bounds fuel pkt len (pkt off + (off + 1)) (pushed ++ b'.' ∷ []) {r = r})
      | inr (x, q) ↦ ground arith
    ]

push_label-ne-out_of_fuel :
    (n : ℕ) (pkt : Memory) (p : ℕ) (owner : Bytes) → push_label n pkt p owner ≢ err out_of_fuel
unfolding push_label
push_label-ne-out_of_fuel zero pkt p owner e = cc
push_label-ne-out_of_fuel (suc n) pkt p owner e =
    ground (arith, push_label-ne-out_of_fuel n pkt (p + 1) (owner ++ pkt p ∷ []))

-- The fuel is enough.
labels-ne-out_of_fuel :
    (fuel : ℕ) (pkt : Memory) (len off : ℕ) (owner : Bytes)
    → len < off + fuel
    → off < len
    → get_labels fuel pkt len off owner ≢ err out_of_fuel
unfolding get_labels label_case
labels-ne-out_of_fuel zero pkt len off owner h lt = absurd (omega arith)
labels-ne-out_of_fuel (suc fuel) pkt len off owner h lt =
    elim (Result-cases (push_label (pkt off) pkt (off + 1) owner)) [
      | inl (pushed, q) ↦
          ground
            (arith, labels-ne-out_of_fuel fuel pkt len (pkt off + (off + 1)) (pushed ++ b'.' ∷ []))
      | inr (x, q) ↦ ground (arith, push_label-ne-out_of_fuel (pkt off) pkt (off + 1) owner)
    ]

push_label-Agree :
    (n : ℕ) (m m' : Memory) (p : ℕ) (owner : Bytes) (len : ℕ)
    → Agree len m m'
    → p + n ≤ len
    → push_label n m p owner ≡ push_label n m' p owner
unfolding push_label
push_label-Agree zero m m' p owner len a h = refl
push_label-Agree (suc n) m m' p owner len a h =
    ground (arith, a p, push_label-Agree n m m' (p + 1) (owner ++ m p ∷ []) len a)

label_case-cong :
    (v len off : ℕ) (owner : Bytes) (r r' : Result (ℕ × Bytes))
    → (v + (off + 1) < len → r ≡ r')
    → label_case v len off owner r ≡ label_case v len off owner r'
unfolding label_case
label_case-cong v len off owner r r' h = elim (Bool-cases (leb len (v + (off + 1)))) [
  | inl outside ↦ rw outside refl
  | inr inside ↦ rw (h (ground arith)) refl
]

labels-Agree :
    (fuel : ℕ) (m m' : Memory) (len off : ℕ) (owner : Bytes)
    → Agree len m m'
    → off < len
    → get_labels fuel m len off owner ≡ get_labels fuel m' len off owner
unfolding get_labels
labels-Agree zero m m' len off owner a h = refl
labels-Agree (suc fuel) m m' len off owner a h = rw (← a off h) (
    label_case-cong (m off) len off owner _ _ λ lt.
      let e = push_label-Agree (m off) m m' (off + 1) owner len a (omega arith) in
      elim (Result-cases (push_label (m off) m (off + 1) owner)) [
        | inl (pushed, q) ↦
            rw (← e, q)
              (ap (λ r. if ltb 256 (length (pushed ++ b'.' ∷ [])) then err name_too_long else r)
                (labels-Agree fuel m m' len (m off + (off + 1)) (pushed ++ b'.' ∷ []) a lt))
        | inr (x, q) ↦ rw (← e, q) refl
      ])

-- A parse that succeeds depends on the bytes of the name alone.
push_label-local :
    (n : ℕ) (m m' : Memory) (p : ℕ) (owner : Bytes)
    → ((i : ℕ) → p ≤ i → i < p + n → m i ≡ m' i)
    → push_label n m p owner ≡ push_label n m' p owner
unfolding push_label
push_label-local zero m m' p owner a = refl
push_label-local (suc n) m m' p owner a = ground (
  arith,
  a p,
  push_label-local n m m' (p + 1) (owner ++ m p ∷ []) (λ i le lt. a i (omega arith) (omega arith)),
)

pub labels_advance :
    (fuel : ℕ) (pkt : Memory) (len off : ℕ) (owner : Bytes) {r : ℕ × Bytes}
    → off < len
    → get_labels fuel pkt len off owner ≡ ok r
    → (off < r.0) × (r.0 ≤ len)
unfolding get_labels label_case
labels_advance zero pkt len off owner lt e = cc
labels_advance (suc fuel) pkt len off owner {r} lt e =
    elim (Result-cases (push_label (pkt off) pkt (off + 1) owner)) [
      | inl (pushed, q) ↦
          ground
            (arith, labels_advance fuel pkt len (pkt off + (off + 1)) (pushed ++ b'.' ∷ []) {r = r})
      | inr (x, q) ↦ ground arith
    ]

label_case-ok :
    (v len len' off : ℕ) (owner : Bytes) (more more' : Result (ℕ × Bytes)) {r : ℕ × Bytes}
    → len ≤ len'
    → label_case v len off owner more ≡ ok r
    → (v + (off + 1) < len → more ≡ ok r → more' ≡ ok r)
    → label_case v len' off owner more' ≡ ok r
unfolding label_case
label_case-ok v len len' off owner more more' {r} le e h = ground arith

-- What follows a label of characters.
long_label :
    (fuel : ℕ) (m : Memory) (len off : ℕ) (owner : Bytes) {r : ℕ × Bytes}
    → off < len
    → (if ltb 256 (length owner) then err name_too_long else get_labels fuel m len off owner) ≡ ok r
    → (off < r.0) × (get_labels fuel m len off owner ≡ ok r)
long_label fuel m len off owner {r} lt e =
    ground (arith, labels_advance fuel m len off owner {r = r})

long_label-local :
    (fuel fuel' : ℕ) (m m' : Memory) (len len' off : ℕ) (owner : Bytes) {r : ℕ × Bytes}
    → (if ltb 256 (length owner) then err name_too_long else get_labels fuel m len off owner) ≡ ok r
    → get_labels fuel' m' len' off owner ≡ ok r
    → (if ltb 256 (length owner) then err name_too_long else get_labels fuel' m' len' off owner)
      ≡ ok r
long_label-local fuel fuel' m m' len len' off owner {r} e f = ground arith

-- So does it in a longer message.
pub labels-local :
    (fuel fuel' : ℕ) (m m' : Memory) (len len' off : ℕ) (owner : Bytes) {r : ℕ × Bytes}
    → fuel ≤ fuel'
    → len ≤ len'
    → off < len
    → get_labels fuel m len off owner ≡ ok r
    → ((i : ℕ) → off ≤ i → i < r.0 → m i ≡ m' i)
    → get_labels fuel' m' len' off owner ≡ ok r
unfolding get_labels
labels-local zero fuel' m m' len len' off owner fle lle lt e a = cc
labels-local (suc fuel) zero m m' len len' off owner fle lle lt e a = absurd (omega arith)
labels-local (suc fuel) (suc fuel') m m' len len' off owner {r} fle lle lt e a =
    let adv = labels_advance (suc fuel) m len off owner lt e in
    rw (← a off (omega arith) adv.0) (
      label_case-ok (m off) len len' off owner _ _ lle e λ h more.
        let (pushed, q, f) = >>=-eq-ok (push_label (m off) m (off + 1) owner) _ more in
        let next = m off + (off + 1) in
        let far = long_label fuel m len next (pushed ++ b'.' ∷ []) h f in
        let same =
          push_label-local (m off) m m' (off + 1) owner
            (λ i le lt'. a i (omega arith) (omega (arith, far.0))) in
        rw (← same, q)
          (long_label-local fuel fuel' m m' len len' next (pushed ++ b'.' ∷ []) f (
            labels-local fuel fuel' m m' len len' next (pushed ++ b'.' ∷ []) (omega arith) lle h
              far.1 (λ i le lt'. a i (omega arith) lt'))))

-- A name that is read from a well-formed packet ends behind its start and in the message, and has at
-- most 256 characters.
pub get_rr_name_bounds :
    (off : ℕ) (p : Packet) {r : ℕ × Bytes}
    → IsPacket p
    → get_rr_name off p ≡ ok r
    → (off < r.0) × (r.0 ≤ p.size) × (length r.1 ≤ 256)
unfolding get_rr_name
get_rr_name_bounds off p {r} v e =
    elim (Result-cases (get_labels (suc p.size) p.bytes p.size off [])) [
      | inl (name, q) ↦ ground (
        arith,
        labels_bounds (suc p.size) p.bytes p.size off [] {r = name},
        mod-eq_of_lt {n = name.0} {m = 65536},
      )
      | inr (x, q) ↦ ground arith
    ]

-- Whatever the bytes are, the loop ends; and no byte behind the message is read: two packets of one
-- size that hold the same message give the same result, failures included.
pub get_rr_name_safe :
    (off : ℕ) (p q : Packet)
    → p.size ≡ q.size
    → Agree p.size p.bytes q.bytes
    → (get_rr_name off p ≢ err out_of_fuel) × (get_rr_name off p ≡ get_rr_name off q)
unfolding get_rr_name
get_rr_name_safe off p q s a = elim (Bool-cases (leb p.size (off + 1))) [
  | inl short ↦ (λ e. ground arith, ground arith)
  | inr long ↦
      let lt : off < p.size = omega tests in
      let same = labels-Agree (suc p.size) p.bytes q.bytes p.size off [] a lt in
      let ends = labels-ne-out_of_fuel (suc p.size) p.bytes p.size off [] (omega arith) lt in
      (
        λ e. elim (Result-cases (get_labels (suc p.size) p.bytes p.size off [])) [
          | inl (name, f) ↦ ground arith
          | inr (x, f) ↦ ground (arith, ends)
        ],
        rw (← s, ← same) refl,
      )
]

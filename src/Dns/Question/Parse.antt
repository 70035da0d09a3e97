-- ===== src/Dns/Question/Parse.antt =====
-- Reading labels back from memory.
use mathlib.Core.Path.{ap₂}
use cdns.Dns.Name.{is_dns_char, push_label, label_case, get_labels}
use cdns.Dns.Question.Fill.{IsLabel, dotted, Encodes}
use cdns.Prelude.{
  le→ltb, Bytes, Memory, slice, length, length-append, All, Result, ok, ℕ, zero, suc, ◌+◌, ◌≤◌, ◌<◌,
  ◌≡◌, sym, ap, ◌∙◌, true, List, [], ◌∷◌, ◌++◌, append-nil, append_assoc, arith,
}

push_label-slice :
    (n : ℕ) (m : Memory) (p : ℕ) (owner l : Bytes)
    → slice m p n ≡ l
    → All (λ c. is_dns_char c ≡ true) l
    → push_label n m p owner ≡ ok (owner ++ l)
unfolding push_label slice
push_label-slice zero m p owner [] e h = ap ok (sym (append-nil owner))
push_label-slice zero m p owner (c ∷ l) e h = cc
push_label-slice (suc n) m p owner [] e h = cc
push_label-slice (suc n) m p owner (c ∷ l) e h =
    let first : m p ≡ c = ground arith in
    let rest : slice m (p + 1) n ≡ l = ground arith in
    rw (first, h.0)
      (push_label-slice n m (p + 1) (owner ++ c ∷ []) l rest h.1
        ∙ ap ok (append_assoc owner (c ∷ []) l))

label_case-more :
    (v len off : ℕ) (owner : Bytes) (more : Result (ℕ × Bytes))
    → 0 < v
    → v < 64
    → v + (off + 1) < len
    → label_case v len off owner more ≡ more
unfolding label_case
label_case-more v len off owner more pos small fits = ground arith

-- Labels that stand in memory and end with a zero are read as the dotted name.
pub get_labels-Encodes :
    (fuel : ℕ) (m : Memory) (len p : ℕ) (owner : Bytes) (ls : List Bytes)
    → All IsLabel ls
    → Encodes m p ls
    → m (p + length (dotted ls)) ≡ 0
    → p + length (dotted ls) + 1 < len
    → length owner + length (dotted ls) ≤ 256
    → length (dotted ls) < fuel
    → get_labels fuel m len p owner ≡ ok (p + length (dotted ls) + 1, owner ++ dotted ls)
unfolding get_labels label_case dotted
get_labels-Encodes zero m len p owner ls h e z fits short enough = absurd (omega arith)
get_labels-Encodes (suc fuel) m len p owner [] h e z fits short enough =
    let z' : m p ≡ 0 = ap m (omega arith) ∙ z in ground (arith, append-nil owner)
get_labels-Encodes (suc fuel) m len p owner (l ∷ ls) h e z fits short enough =
    let n = length-append l (b'.' ∷ dotted ls) in
    let n' = length-append (owner ++ l) (b'.' ∷ []) in
    let n'' = length-append owner l in
    let push : push_label (m p) m (p + 1) owner ≡ ok (owner ++ l) =
      rw (e.0) (push_label-slice (length l) m (p + 1) owner l e.1 h.0.2) in
    let at : p + 1 + length l ≡ m p + (p + 1) = omega (arith, e.0) in
    let end : p + 1 + length l + length (dotted ls) ≡ p + length (l ++ b'.' ∷ dotted ls) =
      omega (arith, n) in
    let ih =
      get_labels-Encodes fuel m len (p + 1 + length l) ((owner ++ l) ++ b'.' ∷ []) ls h.1 e.2
        (ap m end ∙ z) (omega (arith, n)) (omega (arith, n, n', n'')) (omega (arith, n)) in
    label_case-more (m p) len p owner _ (omega (arith, e.0, h.0)) (omega (arith, e.0, h.0))
      (omega (arith, e.0, n))
    ∙ rw (push, le→ltb 256 (length ((owner ++ l) ++ b'.' ∷ [])) (omega (arith, n, n', n'')))
        (ap (λ k. get_labels fuel m len k ((owner ++ l) ++ b'.' ∷ [])) (sym at)
          ∙ ih
          ∙ ap₂ (λ k w. ok (k, w)) (ap (λ k. k + 1) end)
              (append_assoc (owner ++ l) (b'.' ∷ []) (dotted ls)
                ∙ append_assoc owner l (b'.' ∷ dotted ls)))

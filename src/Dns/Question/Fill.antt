-- ===== src/Dns/Question/Fill.antt =====
-- What the constructor of a query writes for a host name that is made of labels.
use mathlib.Core.Path.{ap₂}
use cdns.Dns.Constants.{header_size}
use cdns.Dns.Name.{is_dns_char}
use cdns.Dns.Question.{fill, close_name}
use cdns.Prelude.{
  ◌==◌, lt→leb, Bytes, Memory, write, write_list, slice, write_ne, write_list_below, slice-ext,
  slice-write_list, length, length-append, All, ok, ◌>>=◌, ℕ, suc, ◌+◌, ◌-◌, ◌≤◌, ◌<◌, ◌≡◌, refl,
  sym, ap, ◌∙◌, subst, true, false, List, [], ◌∷◌, ◌++◌, append-nil, arith,
}
use cdns.Sys.Ascii.{is_alnum}

-- A label: not empty, shorter than 64, of letters, digits and dashes.
abbrev pub IsLabel : Bytes → Type 0
IsLabel l = (0 < length l) × (length l < 64) × All (λ c. is_dns_char c ≡ true) l

-- The name with a dot behind each label.
unfoldable pub dotted : List Bytes → Bytes
dotted [] = []
dotted (l ∷ ls) = l ++ b'.' ∷ dotted ls

-- The name with dots between the labels.
unfoldable pub joined : Bytes → List Bytes → Bytes
joined l [] = l
joined l (m ∷ ms) = l ++ b'.' ∷ joined m ms

-- The labels stand in memory from an address on, each behind its length.
abbrev pub Encodes : Memory → ℕ → List Bytes → Type 0
Encodes m p [] = Unit {0}
Encodes m p (l ∷ ls) =
    (m p ≡ length l) × (slice m (p + 1) (length l) ≡ l) × Encodes m (p + 1 + length l) ls

pub Encodes-local :
    (m m' : Memory) (p : ℕ) (ls : List Bytes)
    → Encodes m p ls
    → ((i : ℕ) → p ≤ i → i < p + length (dotted ls) → m i ≡ m' i)
    → Encodes m' p ls
unfolding dotted
Encodes-local m m' p [] e a = tt
Encodes-local m m' p (l ∷ ls) e a =
    let n = length-append l (b'.' ∷ dotted ls) in
    (
      sym (a p (omega arith) (omega (arith, n))) ∙ e.0,
      sym (slice-ext m m' (p + 1) (length l) (λ j le lt. a j (omega arith) (omega (arith, n))))
          ∙ e.1,
      Encodes-local m m' (p + 1 + length l) ls e.2
          (λ i le lt. a i (omega arith) (omega (arith, n))),
    )

dot_is_no_dns_char : (c : ℕ) → is_dns_char c ≡ true → (c == b'.') ≡ false
unfolding is_dns_char is_alnum
dot_is_no_dns_char c h = ground arith

-- The characters of a label are copied.
fill_label :
    (i lo : ℕ) (l rest : Bytes) (b : Memory)
    → All (λ c. is_dns_char c ≡ true) l
    → fill i lo (l ++ rest) b ≡ fill (i + length l) lo rest (write_list b (header_size + i + 1) l)
unfolding fill write_list
fill_label i lo [] rest b h = let e : i ≡ i + 0 = omega arith in ap (λ k. fill k lo rest b) e
fill_label i lo (c ∷ l) rest b h =
    let e : i + 1 + length l ≡ i + suc (length l) = omega arith in
    let e' : header_size + (i + 1) + 1 ≡ header_size + i + 1 + 1 = omega arith in
    rw (dot_is_no_dns_char c h.0, h.0)
      (fill_label (i + 1) lo l rest (write b (header_size + i + 1) c) h.1
        ∙ ap₂ (λ k k'. fill k lo rest (write_list (write b (header_size + i + 1) c) k' l)) e e')

-- What filling and closing give for a name of the given labels.
abbrev pub Filled : ℕ → Bytes → List Bytes → Memory → Type 0
Filled i h ls b =
    (m : Memory) × ((fill i i h b >>= close_name (i + length h)) ≡ ok (i + length (dotted ls), m))
    × Encodes m (header_size + i) ls
    × (m (header_size + (i + length (dotted ls))) ≡ 0)
    × ((j : ℕ) → j < header_size + i → m j ≡ b j)

fill_dot :
    (i n : ℕ) (rest : Bytes) (b : Memory)
    → n < 64
    → fill (i + n) i (b'.' ∷ rest) b
      ≡ fill (i + n + 1) (i + n + 1) rest (write b (header_size + i) n)
unfolding fill
fill_dot i n rest b h = let e : i + n - i ≡ n = omega arith in rw (e, lt→leb 64 n h) refl

-- A label and its dot, and then the rest of the name.
fill_first :
    (i : ℕ) (l rest : Bytes) (ls : List Bytes) (b : Memory)
    → IsLabel l
    → ((b' : Memory) → Filled (i + length l + 1) rest ls b')
    → Filled i (l ++ b'.' ∷ rest) (l ∷ ls) b
unfolding dotted
fill_first i l rest ls b h next =
    let n = length l in
    let b1 = write_list b (header_size + i + 1) l in
    let b2 = write b1 (header_size + i) n in
    let (m, run, enc, zero_end, low) = next b2 in
    let all : i + length (l ++ b'.' ∷ rest) ≡ i + n + 1 + length rest =
      omega (arith, length-append l (b'.' ∷ rest)) in
    let all' : i + length (l ++ b'.' ∷ dotted ls) ≡ i + n + 1 + length (dotted ls) =
      omega (arith, length-append l (b'.' ∷ dotted ls)) in
    let step = fill_label i i l (b'.' ∷ rest) b h.2 ∙ fill_dot i n rest b1 h.1 in
    let len_byte : m (header_size + i) ≡ n = low (header_size + i) (omega arith) ∙ ground arith in
    let chars : slice m (header_size + i + 1) n ≡ l =
      slice-ext m b1 (header_size + i + 1) n
        (λ j le lt. low j (omega arith) ∙ write_ne b1 (header_size + i) n j (omega arith))
      ∙ slice-write_list b (header_size + i + 1) l in
    let at : header_size + (i + n + 1) ≡ header_size + i + 1 + n = omega arith in
    (
      m,
      rw (all, all', step) run,
      (len_byte, chars, subst (λ k. Encodes m k ls) at enc),
      rw all' zero_end,
      λ j lt.
          low j (omega arith)
          ∙ write_ne b1 (header_size + i) n j (omega arith)
          ∙ write_list_below b (header_size + i + 1) l j (omega arith),
    )

pub fill_dotted :
    (i : ℕ) (ls : List Bytes) (b : Memory) → All IsLabel ls → Filled i (dotted ls) ls b
unfolding dotted fill close_name
fill_dotted i [] b h =
    (write b (header_size + i) 0, ground arith, tt, ground arith, λ j lt. ground arith)
fill_dotted i (l ∷ ls) b h =
    fill_first i l (dotted ls) ls b h.0 (λ b'. fill_dotted (i + length l + 1) ls b' h.1)

fill_last : (i : ℕ) (l : Bytes) (b : Memory) → IsLabel l → Filled i l (l ∷ []) b
unfolding dotted fill close_name
fill_last i l b h =
    let n = length l in
    let b1 = write_list b (header_size + i + 1) l in
    let m = write (write b1 (header_size + i) n) (header_size + (1 + (i + n))) 0 in
    let all : i + length (l ++ b'.' ∷ []) ≡ 1 + (i + n) =
      omega (arith, length-append l (b'.' ∷ [])) in
    let step : fill i i l b ≡ ok (i, b1) =
      ap (λ k. fill i i k b) (sym (append-nil l)) ∙ fill_label i i l [] b h.2 in
    (
      m,
      rw (step, all) (ground arith),
      (
        ground arith,
        slice-ext m b1 (header_size + i + 1) n (λ j le lt. ground arith)
            ∙ slice-write_list b (header_size + i + 1) l,
        tt,
      ),
      rw all (ground arith),
      λ j lt. ground (arith, write_list_below b (header_size + i + 1) l j (omega arith)),
    )

pub fill_joined :
    (i : ℕ) (l : Bytes) (ls : List Bytes) (b : Memory)
    → IsLabel l
    → All IsLabel ls
    → Filled i (joined l ls) (l ∷ ls) b
unfolding joined
fill_joined i l [] b h hs = fill_last i l b h
fill_joined i l (k ∷ ls) b h hs =
    fill_first i l (joined k ls) (k ∷ ls) b h
      (λ b'. fill_joined (i + length l + 1) k ls b' hs.0 hs.1)

-- ===== src/Sys/Text.antt =====
-- Texts and numbers as the standard library of C++ reads and writes them, in the classic locale.
use Prim.Native.Nat.{min}
use cdns.Prelude.{
  ltb, leb, ◌==◌, if◌then◌else◌, Bool-cases, Bytes, length, drop, get_or, All, All-append, ℕ, zero,
  suc, ◌+◌, ◌-◌, ◌*◌, ◌/◌, ◌%◌, ◌<◌, ◌≡◌, refl, sym, ap, ◌∙◌, ◌≢◌, inl, inr, Bool, true, false,
  ◌&&◌, ◌||◌, [], ◌∷◌, ◌++◌, append-nil, append_assoc, arith,
}

abbrev pub front_is : ℕ → Bytes → Bool
front_is ch [] = false
front_is ch (c ∷ s) = c == ch

-- `std::isspace` in the classic locale.
abbrev pub is_space : ℕ → Bool
is_space c = c == 32 || (leb 9 c && leb c 13)

unfoldable pub skip_spaces : Bytes → Bytes
skip_spaces [] = []
skip_spaces (c ∷ s) = let rest = skip_spaces s in if is_space c then rest else c ∷ s

-- Up to the first zero.
unfoldable pub c_str : Bytes → Bytes
c_str [] = []
c_str (c ∷ s) = let rest = c_str s in if c == 0 then [] else c ∷ rest

-- The digits of a number, on fuel.
unfoldable pub decimal : ℕ → ℕ → Bytes
decimal zero n = []
decimal (suc fuel) n =
    let front = decimal fuel (n / 10) in
    if ltb n 10 then (48 + n) ∷ [] else front ++ (48 + n % 10) ∷ []

-- `std::to_string`, with more fuel than digits.
unfoldable pub to_string : ℕ → Bytes
to_string n = decimal (suc n) n

abbrev pub is_digit : ℕ → Bool
is_digit c = leb 48 c && leb c 57

-- The number that the digits give behind those that are read, and the rest.
unfoldable pub read_digits : ℕ → Bytes → ℕ × Bytes
read_digits n [] = (n, [])
read_digits n (c ∷ s) =
    let more = read_digits (n * 10 + (c - 48)) s in if is_digit c then more else (n, c ∷ s)

-- The result of `strtol`: a sign, a number, and the text behind it.
pub record Long : Type 0 where
  pub negative : Bool
  pub magnitude : ℕ
  pub rest : Bytes

-- The digits behind a sign, 64 bits wide; without a digit nothing is read.
unfoldable pub long_of : Bytes → Bool → Bytes → Long
long_of str negative s =
    let r = read_digits 0 s in
    let limit = if negative then 9223372036854775808 else 9223372036854775807 in
    if is_digit (get_or s 0 0)
    then record { negative = negative; magnitude = min r.0 limit; rest = r.1 }
    else record { negative = false; magnitude = 0; rest = str }

-- `std::strtol (str, &end, 10)` on a 64-bit machine.
unfoldable pub strtol : Bytes → Long
strtol str =
    let s = skip_spaces str in
    if front_is b'-' s
    then long_of str true (drop 1 s)
    else if front_is b'+' s
    then long_of str false (drop 1 s)
    else long_of str false s

read_digits-decimal :
    (fuel n : ℕ) (s : Bytes) → n < fuel → read_digits 0 (decimal fuel n ++ s) ≡ read_digits n s
unfolding decimal read_digits
read_digits-decimal zero n s lt = absurd (omega arith)
read_digits-decimal (suc fuel) n s lt = elim (Bool-cases (ltb n 10)) [
  | inl small ↦
      let d : is_digit (48 + n) ≡ true = ground (arith, small) in
      let e : 0 * 10 + (48 + n - 48) ≡ n = omega arith in rw (small, d, e) refl
  | inr big ↦
      let d : is_digit (48 + n % 10) ≡ true = ground arith in
      let e : n / 10 * 10 + (48 + n % 10 - 48) ≡ n = omega arith in
      let k : n / 10 < fuel = ground (arith, big, lt) in
      rw big (
        ap (read_digits 0) (append_assoc (decimal fuel (n / 10)) ((48 + n % 10) ∷ []) s)
        ∙ read_digits-decimal fuel (n / 10) ((48 + n % 10) ∷ s) k
        ∙ rw (d, e) refl)
]

-- A number begins with a digit.
decimal-cons :
    (fuel n : ℕ) → n < fuel → (c : ℕ) × (t : Bytes) × (decimal fuel n ≡ c ∷ t) × (is_digit c ≡ true)
unfolding decimal
decimal-cons zero n lt = absurd (omega arith)
decimal-cons (suc fuel) n lt = elim (Bool-cases (ltb n 10)) [
  | inl small ↦ (48 + n, [], rw small refl, ground (arith, small))
  | inr big ↦
      let (c, t, e, d) = decimal-cons fuel (n / 10) (ground (arith, big, lt)) in
      (c, t ++ (48 + n % 10) ∷ [], rw (big, e) refl, d)
]

no_digits : (n : ℕ) → read_digits n [] ≡ (n, [])
unfolding read_digits
no_digits n = refl

-- A number that is written reads back.
pub strtol-to_string :
    (n : ℕ)
    → n < 9223372036854775807
    → strtol (to_string n) ≡ record { negative = false; magnitude = n; rest = [] }
unfolding strtol to_string long_of skip_spaces
strtol-to_string n small =
    let (c, t, e, d) = decimal-cons (suc n) n (omega arith) in
    let read : read_digits 0 (c ∷ t) ≡ (n, []) =
      ap (read_digits 0) (sym e ∙ sym (append-nil (decimal (suc n) n)))
      ∙ read_digits-decimal (suc n) n [] (omega arith)
      ∙ no_digits n in
    let space : is_space c ≡ false = ground (arith, d) in
    let minus : (c == b'-') ≡ false = ground (arith, d) in
    let plus : (c == b'+') ≡ false = ground (arith, d) in
    let fits : min n 9223372036854775807 ≡ n = omega (arith, small) in
    rw (e, space, minus, plus, d, read, fits) refl

decimal-All : (fuel n : ℕ) → n < fuel → All (λ c. is_digit c ≡ true) (decimal fuel n)
unfolding decimal
decimal-All zero n lt = absurd (omega arith)
decimal-All (suc fuel) n lt = elim (Bool-cases (ltb n 10)) [
  | inl small ↦ rw small (ground (arith, small), tt)
  | inr big ↦ rw big (
      All-append (λ c. is_digit c ≡ true) (decimal fuel (n / 10)) ((48 + n % 10) ∷ [])
        (decimal-All fuel (n / 10) (ground (arith, big, lt))) (ground arith, tt))
]

pub to_string-All : (n : ℕ) → All (λ c. is_digit c ≡ true) (to_string n)
unfolding to_string
to_string-All n = decimal-All (suc n) n (omega arith)

pub length-to_string : (n : ℕ) → 0 < length (to_string n)
unfolding to_string
length-to_string n = let (c, t, e, d) = decimal-cons (suc n) n (omega arith) in rw e (omega arith)

-- A text without a zero is read to its end.
pub c_str-All : (t : Bytes) → All (λ c. c ≢ 0) t → c_str t ≡ t
unfolding c_str
c_str-All [] h = refl
c_str-All (c ∷ t) h = let e : (c == 0) ≡ false = ground (arith, h.0) in rw (e, c_str-All t h.1) refl

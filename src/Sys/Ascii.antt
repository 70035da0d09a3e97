-- ===== src/Sys/Ascii.antt =====
-- sys/srcz/str.cpp: case folding in the classic locale, where only the letters A to Z change; and
-- the classic locale's letters and digits, which dns/srcz/query.cpp tests for.
use cdns.Prelude.{
  ltb, leb, ◌==◌, if◌then◌else◌, Bytes, length, ℕ, ◌+◌, ◌≡◌, refl, ◌↔◌, Bool, ◌&&◌, ◌||◌, [], ◌∷◌,
  ◌++◌, arith,
}

-- `std::tolower <char> (ch, std::locale::classic())`
unfoldable pub to_lower : ℕ → ℕ
to_lower c = if leb b'A' c && leb c b'Z' then c + 32 else c

unfoldable pub is_alnum : ℕ → Bool
is_alnum c = (leb b'0' c && leb c b'9') || (leb b'A' c && leb c b'Z') || (leb b'a' c && leb c b'z')

-- `ascii_tolower_copy (const std::string &)`
unfoldable pub ascii_tolower_copy : Bytes → Bytes
ascii_tolower_copy [] = []
ascii_tolower_copy (c ∷ s) = to_lower c ∷ ascii_tolower_copy s

-- `ascii_tolower (char *)`: up to the first zero.
unfoldable pub ascii_tolower_cstr : Bytes → Bytes
ascii_tolower_cstr [] = []
ascii_tolower_cstr (c ∷ s) =
    let rest = ascii_tolower_cstr s in if c == 0 then c ∷ s else to_lower c ∷ rest

-- `ascii_strcasecmp` on texts that end where the lists end: less, equal or greater.
pub data Compare : Type 0 where
  less equal greater : Compare

unfoldable pub ascii_strcasecmp : Bytes → Bytes → Compare
ascii_strcasecmp [] [] = equal
ascii_strcasecmp [] (c ∷ t) = less
ascii_strcasecmp (c ∷ s) [] = greater
ascii_strcasecmp (c ∷ s) (d ∷ t) =
    let rest = ascii_strcasecmp s t in
    if ltb (to_lower c) (to_lower d)
    then less
    else if ltb (to_lower d) (to_lower c)
    then greater
    else rest

pub to_lower_idem : (c : ℕ) → to_lower (to_lower c) ≡ to_lower c
unfolding to_lower
to_lower_idem c = ground arith

pub tolower_copy_idem :
    (s : Bytes) → ascii_tolower_copy (ascii_tolower_copy s) ≡ ascii_tolower_copy s
unfolding ascii_tolower_copy
tolower_copy_idem [] = refl
tolower_copy_idem (c ∷ s) = cc (to_lower_idem c, tolower_copy_idem s)

pub length-tolower_copy : (s : Bytes) → length (ascii_tolower_copy s) ≡ length s
unfolding ascii_tolower_copy
length-tolower_copy [] = refl
length-tolower_copy (c ∷ s) = omega (arith, length-tolower_copy s)

pub tolower_copy-append :
    (s t : Bytes) → ascii_tolower_copy (s ++ t) ≡ ascii_tolower_copy s ++ ascii_tolower_copy t
unfolding ascii_tolower_copy
tolower_copy-append [] t = refl
tolower_copy-append (c ∷ s) t = cc (tolower_copy-append s t)

-- Two texts compare equal exactly when they are the same text but for the case of their letters.
pub strcasecmp-equal_iff :
    (s t : Bytes) → (ascii_strcasecmp s t ≡ equal) ↔ (ascii_tolower_copy s ≡ ascii_tolower_copy t)
unfolding ascii_strcasecmp ascii_tolower_copy
strcasecmp-equal_iff [] [] = (λ _. refl, λ _. refl)
strcasecmp-equal_iff [] (d ∷ t) = (λ h. cc, λ h. cc)
strcasecmp-equal_iff (c ∷ s) [] = (λ h. cc, λ h. cc)
strcasecmp-equal_iff (c ∷ s) (d ∷ t) =
    let ih = strcasecmp-equal_iff s t in (λ h. ground arith, λ h. ground arith)

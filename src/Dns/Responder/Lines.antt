-- ===== src/Dns/Responder/Lines.antt =====
-- Lines of a list of servers in resolv.conf, and how words are read from them: `responder::from_file`.
use cdns.Dns.Filter.Load.{take_word, ignore_line}
use cdns.Dns.Hosts.{wanted}
use cdns.Dns.Responder.{Provider}
use cdns.Dns.Responder.Load.{unused_keys, is_one_of}
use cdns.Network.Address.{Inet, Address, new_address}
use cdns.Prelude.{
  ◌==◌, if◌then◌else◌, Bool-cases, Bytes, codes, bytes_eq, length, All, Result, err, ok, ◌>>=◌, ℕ,
  ◌-◌, ◌≤◌, ◌<◌, ◌≡◌, refl, ◌≢◌, inl, inr, Bool, true, false, ◌||◌, Option, none, some, List, [],
  ◌∷◌, ◌++◌, arith,
}
use cdns.Sys.Text.{front_is, is_space, skip_spaces}

-- `key`, one of it.
pub data UnusedKey : Type 0 where
  search_key domain_key sortlist_key options_key : UnusedKey

unfoldable pub key_text : UnusedKey → Bytes
key_text search_key = codes "search"
key_text domain_key = codes "domain"
key_text sortlist_key = codes "sortlist"
key_text options_key = codes "options"

-- A line: a server with the text of its address, a remark, or a key that is not used, each with a text at
-- its end.
pub data ServerLine : Type 0 where
  server_line : Address → Bytes → Bytes → ServerLine
  remark_line : Bytes → ServerLine
  unused_line : UnusedKey → Bytes → ServerLine

-- A line, and the text behind it.
unfoldable pub print_server_line : ServerLine → Bytes → Bytes
print_server_line (server_line a w t) more = codes "nameserver" ++ 32 ∷ (w ++ (t ++ 10 ∷ more))
print_server_line (remark_line t) more = 35 ∷ (t ++ 10 ∷ more)
print_server_line (unused_line k t) more = key_text k ++ (t ++ 10 ∷ more)

-- Lines with what stands in front of each, and the text behind them.
unfoldable pub print_server_lines : List (Bytes × ServerLine) → Bytes → Bytes
print_server_lines [] more = more
print_server_lines ((blank, l) ∷ ls) more =
    blank ++ print_server_line l (print_server_lines ls more)

-- A last line that is not ended, if there is one: an address, its text, and the text at its end.
unfoldable pub print_unended : Option (Address × Bytes × Bytes) → Bytes
print_unended none = []
print_unended (some (a, w, t)) = codes "nameserver" ++ 32 ∷ (w ++ t)

abbrev pub IsLineEnd : Bytes → Type 0
IsLineEnd t = All (λ ch. ch ≢ 10) t × (length t < 99999)

abbrev pub starts_blank : Bytes → Bool
starts_blank [] = true
starts_blank (c ∷ s) = is_space c

-- Nothing, or a space and what follows.
abbrev pub IsTail : Bytes → Type 0
IsTail t = IsLineEnd t × (starts_blank t ≡ true)

-- A word that stands for the address.
abbrev pub IsAddressWord : (Inet → Bytes → Option Bytes) → Address → Bytes → Type 0
IsAddressWord pton a w =
    (0 < length w) × All (λ ch. is_space ch ≡ false) w × (new_address pton w 53 ≡ ok a)

unfoldable pub IsServerLine : (Inet → Bytes → Option Bytes) → ServerLine → Type 0
IsServerLine pton (server_line a w t) = IsAddressWord pton a w × IsTail t
IsServerLine pton (remark_line t) = IsLineEnd t
IsServerLine pton (unused_line k t) = IsTail t

unfoldable pub IsUnended : (Inet → Bytes → Option Bytes) → Option (Address × Bytes × Bytes) → Type 0
IsUnended pton none = Unit {0}
IsUnended pton (some (a, w, t)) = IsAddressWord pton a w × IsTail t

-- Blanks and empty lines, and a line behind them.
abbrev pub IsIndented : (Inet → Bytes → Option Bytes) → Bytes × ServerLine → Type 0
IsIndented pton l = All (λ ch. is_space ch ≡ true) l.0 × IsServerLine pton l.1

-- The servers of lines with an address of a family that is wanted, in front of others.
unfoldable pub line_server : Bool → Bool → ServerLine → List Provider → List Provider
line_server noipv6 tcp (server_line a w t) rest =
    if wanted noipv6 a.inet then record { address = a; tcp = tcp; failures = 0 } ∷ rest else rest
line_server noipv6 tcp (remark_line t) rest = rest
line_server noipv6 tcp (unused_line k t) rest = rest

unfoldable pub line_servers :
    Bool → Bool → List (Bytes × ServerLine) → List Provider → List Provider
line_servers noipv6 tcp [] rest = rest
line_servers noipv6 tcp (l ∷ ls) rest = line_server noipv6 tcp l.1 (line_servers noipv6 tcp ls rest)

pub skip_spaces-append :
    (b s : Bytes) → All (λ ch. is_space ch ≡ true) b → skip_spaces (b ++ s) ≡ skip_spaces s
unfolding skip_spaces
skip_spaces-append [] s h = refl
skip_spaces-append (c ∷ b) s h = rw h.0 (skip_spaces-append b s h.1)

-- The server of a last line that is not ended is read if anything follows its address.
unfoldable pub unended_server : Bool → Bool → Option (Address × Bytes × Bytes) → List Provider
unended_server noipv6 tcp none = []
unended_server noipv6 tcp (some (a, w, [])) = []
unended_server noipv6 tcp (some (a, w, c ∷ t)) = line_server noipv6 tcp (server_line a w (c ∷ t)) []

pub take_word-append :
    (w s : Bytes)
    → All (λ ch. is_space ch ≡ false) w
    → starts_blank s ≡ true
    → take_word (w ++ s) ≡ (w, s)
unfolding take_word
take_word-append [] [] h k = refl
take_word-append [] (c ∷ s) h k = rw k refl
take_word-append (c ∷ w) s h k = rw (h.0, take_word-append w s h.1 k) refl

pub starts_blank-append : (t s : Bytes) → IsTail t → starts_blank (t ++ 10 ∷ s) ≡ true
starts_blank-append [] s h = refl
starts_blank-append (c ∷ t) s h = h.1

-- A line feed that is not there is not found.
pub ignore_line-All :
    (n : ℕ) (xs : Bytes) → All (λ ch. ch ≢ 10) xs → length xs ≤ n → ignore_line n xs ≡ []
unfolding ignore_line
ignore_line-All n [] h k = refl
ignore_line-All n (ch ∷ xs) h k =
    let ih = ignore_line-All (n - 1) xs h.1 (omega (arith, k)) in ground arith

-- What a word leaves of a line.
pub take_word-line :
    (t more : Bytes)
    → IsLineEnd t
    → (t' : Bytes) × IsLineEnd t' × ((take_word (t ++ 10 ∷ more)).1 ≡ t' ++ 10 ∷ more)
unfolding take_word
take_word-line [] more h = ([], h, refl)
take_word-line (c ∷ t) more h = elim (Bool-cases (is_space c)) [
  | inl space ↦ (c ∷ t, h, rw space refl)
  | inr other ↦
      let r = take_word-line t more (h.0.1, omega (arith, h.1)) in (r.0, r.1, rw other r.2)
]

pub skip_spaces-word :
    (w s : Bytes) → 0 < length w → All (λ ch. is_space ch ≡ false) w → skip_spaces (w ++ s) ≡ w ++ s
unfolding skip_spaces
skip_spaces-word [] s k h = absurd (omega (arith, k))
skip_spaces-word (c ∷ w) s k h = rw h.0 refl

pub >>=-ok {ℓ} : {A : Type ℓ} (r : Result A) → r ≡ (r >>= λ a. ok a)
>>=-ok (err e) = refl
>>=-ok (ok a) = refl

pub >>=-ok-ok {ℓ} :
    {A : Type ℓ} (r : Result A) (f g : A → A)
    → ((r >>= λ a. ok (f a)) >>= λ b. ok (g b)) ≡ (r >>= λ a. ok (g (f a)))
>>=-ok-ok (err e) f g = refl
>>=-ok-ok (ok a) f g = refl

pub key_text-word : (k : UnusedKey) → All (λ ch. is_space ch ≡ false) (key_text k)
unfolding key_text
key_text-word search_key = ground arith
key_text-word domain_key = ground arith
key_text-word sortlist_key = ground arith
key_text-word options_key = ground arith

-- A key that is not used is a word that is found.
pub key_text-found :
    (k : UnusedKey)
    → (length (key_text k) == 0 ≡ false)
      × ((front_is b'#' (key_text k) || is_one_of unused_keys (key_text k)) ≡ true)
      × (0 < length (key_text k))
unfolding key_text is_one_of bytes_eq
key_text-found search_key = (refl, refl, omega arith)
key_text-found domain_key = (refl, refl, omega arith)
key_text-found sortlist_key = (refl, refl, omega arith)
key_text-found options_key = (refl, refl, omega arith)

pub nameserver_word :
    All (λ ch. is_space ch ≡ false) (codes "nameserver")
    × ((front_is b'#' (codes "nameserver") || is_one_of unused_keys (codes "nameserver")) ≡ false)
    × (bytes_eq (codes "nameserver") (codes "nameserver") ≡ true)
unfolding is_one_of bytes_eq
nameserver_word = (ground arith, refl, refl)

-- ===== src/Dns/Crypt/Keys.antt =====
-- crypt/crypt.cpp: keys as texts. `sodium_hex2bin` of libsodium, with room for 32 bytes and the characters
-- to skip that `hex2bin` gives, is an argument: from a text, a code, zero for success, and the bytes.
use cdns.Prelude.{
  ltb, ◌==◌, if◌then◌else◌, Bytes, length, All, invalid_key, Result, err, ok, ℕ, zero, suc, ◌+◌,
  ◌*◌, ◌/◌, ◌%◌, ◌≤◌, ◌<◌, ◌≡◌, refl, ◌⊎◌, inl, true, false, not, ◌||◌, [], ◌∷◌, arith,
}

-- A digit of the bytes that are written, with `std::hex` and `std::uppercase`.
abbrev pub hex_digit : ℕ → ℕ
hex_digit n = if ltb n 10 then 48 + n else 55 + n

-- A byte, with `std::setw (2)` and the fill character 0.
abbrev pub hex_byte : ℕ → Bytes → Bytes
hex_byte b rest = hex_digit (b / 16) ∷ hex_digit (b % 16) ∷ rest

-- `bin2hex`, of an even number of bytes; what a list of another length would give is not used.
unfoldable pub bin2hex : Bytes → Bytes
bin2hex [] = []
bin2hex (a ∷ []) = []
bin2hex (a ∷ b ∷ []) = hex_byte a (hex_byte b [])
bin2hex (a ∷ b ∷ c ∷ key) = hex_byte a (hex_byte b (b':' ∷ bin2hex (c ∷ key)))

-- `hex2bin`, and with it the constructors of `pubkey` and of `secretkey` from a text.
unfoldable pub hex2bin : (Bytes → ℕ × Bytes) → Bytes → Result Bytes
hex2bin sodium_hex2bin hex =
    let key = sodium_hex2bin hex in
    if ltb (length hex) 8 || not (key.0 == 0) || not (length key.1 == 32)
    then err invalid_key
    else ok key.1

-- A text of bytes: two digits for each, and in front of a byte characters that are skipped.
pub data HexText : Bytes → Bytes → Type 0 where
  hex_end : HexText [] []
  hex_skip :
      {t : Bytes} {key : Bytes} (c : ℕ)
      → (c ≡ b':') ⊎ (c ≡ 32)
      → HexText t key
      → HexText (c ∷ t) key
  hex_pair :
      {t : Bytes} {key : Bytes} (b : ℕ) → b < 256 → HexText t key → HexText (hex_byte b t) (b ∷ key)

abbrev pub IsKey : Bytes → Type 0
IsKey key = All (λ b. b < 256) key × (length key ≡ 32)

-- What is documented of `sodium_hex2bin`: the text of at most 32 bytes is read as these bytes.
abbrev pub HexLaw : (Bytes → ℕ × Bytes) → Type 0
HexLaw sodium_hex2bin =
    (t key : Bytes) → HexText t key → length key ≤ 32 → sodium_hex2bin t ≡ (0, key)

pub data IsEven : Bytes → Type 0 where
  even_end : IsEven []
  even_next : {key : Bytes} (a b : ℕ) → IsEven key → IsEven (a ∷ b ∷ key)

bin2hex-HexText : {key : Bytes} → IsEven key → All (λ b. b < 256) key → HexText (bin2hex key) key
unfolding bin2hex
bin2hex-HexText even_end h = hex_end
bin2hex-HexText (even_next a b even_end) h = hex_pair a h.0 (hex_pair b h.1.0 hex_end)
bin2hex-HexText (even_next a b (even_next c d e)) h =
    hex_pair a h.0
      (hex_pair b h.1.0 (hex_skip b':' (inl refl) (bin2hex-HexText (even_next c d e) h.1.1)))

length-IsEven : (n : ℕ) (key : Bytes) → length key ≡ n * 2 → IsEven key
length-IsEven n [] e = even_end
length-IsEven n (a ∷ []) e = absurd (omega (arith, e))
length-IsEven zero (a ∷ b ∷ key) e = absurd (omega (arith, e))
length-IsEven (suc n) (a ∷ b ∷ key) e = even_next a b (length-IsEven n key (omega (arith, e)))

length-bin2hex :
    {key : Bytes}
    → IsEven key
    → (length key * 5 ≤ length (bin2hex key) * 2 + 2) × (length (bin2hex key) ≤ length key * 5)
unfolding bin2hex
length-bin2hex even_end = (omega arith, omega arith)
length-bin2hex (even_next a b even_end) = (omega arith, omega arith)
length-bin2hex (even_next a b (even_next c d e)) =
    let ih = length-bin2hex (even_next c d e) in (omega (arith, ih.0), omega (arith, ih.1))

-- The text of a key is read as the key.
pub hex2bin-bin2hex :
    (sodium_hex2bin : Bytes → ℕ × Bytes) (key : Bytes)
    → HexLaw sodium_hex2bin
    → IsKey key
    → hex2bin sodium_hex2bin (bin2hex key) ≡ ok key
unfolding hex2bin
hex2bin-bin2hex sodium_hex2bin key law h =
    let even = length-IsEven 16 key (omega (arith, h.1)) in
    let read = law (bin2hex key) key (bin2hex-HexText even h.0) (omega (arith, h.1)) in
    let long : ltb (length (bin2hex key)) 8 ≡ false =
      ground (arith, (length-bin2hex even).0, h.1) in
    let full : (length key == 32) ≡ true = ground (arith, h.1) in rw (long, read, full) refl

abbrev pub IsHexCode : ℕ → Type 0
IsHexCode c = (b'0' ≤ c) × (c ≤ b'F')

hex_digit-IsHexCode : (n : ℕ) → n < 16 → IsHexCode (hex_digit n)
hex_digit-IsHexCode n h = ground arith

hex_byte-All :
    (b : ℕ) (rest : Bytes) → b < 256 → All IsHexCode rest → All IsHexCode (hex_byte b rest)
hex_byte-All b rest h k = (
  hex_digit-IsHexCode (b / 16) (omega (arith, h)),
  (hex_digit-IsHexCode (b % 16) (omega arith), k),
)

-- The characters of the text of a key, from the digit 0 to the letter F.
bin2hex-All : {key : Bytes} → IsEven key → All (λ b. b < 256) key → All IsHexCode (bin2hex key)
unfolding bin2hex
bin2hex-All even_end h = tt
bin2hex-All (even_next a b even_end) h =
    hex_byte-All a (hex_byte b []) h.0 (hex_byte-All b [] h.1.0 tt)
bin2hex-All (even_next a b (even_next {key} c d e)) h =
    let more = b':' ∷ bin2hex (c ∷ d ∷ key) in
    hex_byte-All a (hex_byte b more) h.0
      (hex_byte-All b more h.1.0 (omega arith, bin2hex-All (even_next c d e) h.1.1))

-- The text of a key of 32 bytes has 2 characters at least and 160 at most.
pub bin2hex_text :
    (key : Bytes)
    → IsKey key
    → All IsHexCode (bin2hex key) × (0 < length (bin2hex key)) × (length (bin2hex key) ≤ 160)
bin2hex_text key h =
    let even = length-IsEven 16 key (omega (arith, h.1)) in
    (
      bin2hex-All even h.0,
      omega (arith, h.1, length-bin2hex even),
      omega (arith, h.1, length-bin2hex even),
    )

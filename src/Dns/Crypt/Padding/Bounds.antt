-- ===== src/Dns/Crypt/Padding/Bounds.antt =====
-- The length of a padded message.
use cdns.Dns.Crypt.Padding.{min_pad_len, padded_size, clear, pad_buffer}
use cdns.Prelude.{
  ltb, Memory, write, ℕ, suc, ◌+◌, ◌-◌, ◌%◌, ◌≤◌, ◌<◌, ◌≡◌, refl, ap, ◌⊎◌, false, arith,
}

-- A random function as `randombytes_uniform` documents it: the result is below the bound.
abbrev pub IsUniform : (ℕ → ℕ) → Type 0
IsUniform f = (n : ℕ) → f (suc n) ≤ n

pub padded_size_bounds :
    (len max_len : ℕ) (rndfunc : ℕ → ℕ)
    → IsUniform rndfunc
    → len + 8 ≤ max_len
    → max_len + 64 < 4294967296
    → let n = padded_size len max_len (rndfunc (max_len - len - 8 + 1)) in
      (len + 8 ≤ n) × (n ≤ max_len) × ((n % 64 ≡ 0) ⊎ (n ≡ max_len))
unfolding padded_size
padded_size_bounds len max_len rndfunc u room small =
    let r = u (max_len - len - 8) in
    let e : max_len - len - 8 + 1 ≡ suc (max_len - len - 8) = omega arith in
    ground (arith, ap rndfunc e)

-- What `pad_buffer` gives where there is room.
pub pad_buffer-room :
    (buf : Memory) (len max_len : ℕ) (rndfunc : ℕ → ℕ)
    → len + 8 ≤ max_len
    → max_len + 64 < 4294967296
    → let n = padded_size len max_len (rndfunc (max_len - len - 8 + 1)) in
      pad_buffer buf len max_len rndfunc ≡ (write (clear buf len (n - len)) len 0x80, n)
unfolding pad_buffer
pad_buffer-room buf len max_len rndfunc room small =
    let fits : ltb max_len ((len + min_pad_len) % 4294967296) ≡ false = ground arith in rw fits refl

-- For a random function whose result is below its bound, and where there is room for the smallest
-- padding, 8 bytes, in lengths that stay below 2 ^ 32 by 64: at least 8 bytes are added, the padded
-- length is at most the largest one, and it is a multiple of 64 or the largest one.
pub pad_buffer_bounds :
    (buf : Memory) (len max_len : ℕ) (rndfunc : ℕ → ℕ)
    → IsUniform rndfunc
    → len + 8 ≤ max_len
    → max_len + 64 < 4294967296
    → let n = (pad_buffer buf len max_len rndfunc).1 in
      (len + 8 ≤ n) × (n ≤ max_len) × ((n % 64 ≡ 0) ⊎ (n ≡ max_len))
pad_buffer_bounds buf len max_len rndfunc u room small =
    rw (pad_buffer-room buf len max_len rndfunc room small)
      (padded_size_bounds len max_len rndfunc u room small)

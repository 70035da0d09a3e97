-- ===== src/Dns/Crypt/Padding/RoundTrip.antt =====
-- The end of a padded message is found.
use cdns.Dns.Crypt.Padding.{padded_size, clear, pad_buffer, end_loop, find_end}
use cdns.Dns.Crypt.Padding.Bounds.{IsUniform, padded_size_bounds, pad_buffer-room}
use cdns.Prelude.{
  Memory, write, slice, write_ne, slice-ext, ok, ℕ, zero, suc, ◌+◌, ◌-◌, ◌≤◌, ◌<◌, ◌≡◌, refl, ◌∙◌,
  ◌≢◌, ◌⊎◌, inl, inr, arith,
}

clear_below : (m : Memory) (i n j : ℕ) → j < i → clear m i n j ≡ m j
unfolding clear
clear_below m i zero j lt = refl
clear_below m i (suc n) j lt =
    clear_below (write m i 0) (i + 1) n j (omega arith) ∙ write_ne m i 0 j (omega arith)

clear_at : (m : Memory) (i n j : ℕ) → i ≤ j → j < i + n → clear m i n j ≡ 0
unfolding clear
clear_at m i zero j le lt = absurd (omega arith)
clear_at m i (suc n) j le lt = elim (le-cases i j le) [
  | inl e ↦ clear_below (write m i 0) (i + 1) n j (omega arith) ∙ ground arith
  | inr further ↦ clear_at (write m i 0) (i + 1) n j (omega arith) (omega arith)
]
  where
    le-cases : (a b : ℕ) → a ≤ b → (a ≡ b) ⊎ (a < b)
    le-cases a b h = omega arith

-- The last byte that is not zero.
end_loop_at :
    (m : Memory) (e k : ℕ)
    → e < k
    → m e ≢ 0
    → ((j : ℕ) → e < j → j < k → m j ≡ 0)
    → end_loop m k ≡ e
unfolding end_loop
end_loop_at m e zero lt ne z = absurd (omega arith)
end_loop_at m e (suc k) lt ne z = elim (lt-cases e k lt) [
  | inl same ↦ ground arith
  | inr further ↦
      let ih = end_loop_at m e k further ne (λ j l h. z j l (omega arith)) in
      rw (z k further (omega arith)) ih
]
  where
    lt-cases : (a b : ℕ) → a < suc b → (a ≡ b) ⊎ (a < b)
    lt-cases a b h = omega arith

find_end_at :
    (m : Memory) (e k : ℕ)
    → e < k
    → m e ≡ 0x80
    → ((j : ℕ) → e < j → j < k → m j ≡ 0)
    → find_end m k ≡ ok e
unfolding find_end
find_end_at m e k lt mark z = rw (end_loop_at m e k lt (λ h. ground arith) z, mark) refl

-- A message with the mark and zeros behind it.
marked :
    (buf : Memory) (len n : ℕ)
    → len < n
    → let m = write (clear buf len (n - len)) len 0x80 in
      (find_end m n ≡ ok len) × (slice m 0 len ≡ slice buf 0 len)
marked buf len n lt = (
  find_end_at (write (clear buf len (n - len)) len 0x80) len n lt (ground arith) (λ j l h.
      write_ne (clear buf len (n - len)) len 0x80 j (omega arith)
      ∙ clear_at buf len (n - len) j (omega arith) (omega arith)),
  slice-ext (write (clear buf len (n - len)) len 0x80) buf 0 len (λ j _ h.
      write_ne (clear buf len (n - len)) len 0x80 j (omega arith)
      ∙ clear_below buf len (n - len) j (omega arith)),
)

-- For a random function whose result is below its bound, and where there is room for the smallest
-- padding, in lengths that stay below 2 ^ 32 by 64: the end of the message is found in the padded
-- buffer, and the bytes of the message are as before.
pub find_end-pad_buffer :
    (buf : Memory) (len max_len : ℕ) (rndfunc : ℕ → ℕ)
    → IsUniform rndfunc
    → len + 8 ≤ max_len
    → max_len + 64 < 4294967296
    → let padded = pad_buffer buf len max_len rndfunc in
      (find_end padded.0 padded.1 ≡ ok len) × (slice padded.0 0 len ≡ slice buf 0 len)
find_end-pad_buffer buf len max_len rndfunc u room small =
    let bounds = padded_size_bounds len max_len rndfunc u room small in
    rw (pad_buffer-room buf len max_len rndfunc room small)
      (marked buf len (padded_size len max_len (rndfunc (max_len - len - 8 + 1))) (omega arith))

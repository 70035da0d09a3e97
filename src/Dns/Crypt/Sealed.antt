-- ===== src/Dns/Crypt/Sealed.antt =====
-- Messages that are padded, and what a header in front of them leaves.
use cdns.Dns.Crypt.Client.{padded_message}
use cdns.Dns.Crypt.Padding.{pad_buffer, end_loop, find_end}
use cdns.Dns.Crypt.Padding.Bounds.{IsUniform, pad_buffer_bounds}
use cdns.Dns.Crypt.Padding.RoundTrip.{find_end-pad_buffer}
use cdns.Prelude.{
  Memory, write_list, slice, Agree, slice-ext, length-slice, slice-shift, write_list-slice, length,
  ok, ℕ, zero, suc, ◌+◌, ◌≤◌, ◌<◌, ◌≡◌, refl, ap, ◌∙◌, arith,
}

end_loop-Agree : (n : ℕ) (m m' : Memory) → Agree n m m' → end_loop m n ≡ end_loop m' n
unfolding end_loop
end_loop-Agree zero m m' a = refl
end_loop-Agree (suc n) m m' a =
    let ih = end_loop-Agree n m m' (λ i h. a i (omega arith)) in ground (arith, a n)

end_loop-lt : (n : ℕ) (m : Memory) → 0 < n → end_loop m n < n
unfolding end_loop
end_loop-lt zero m h = absurd (omega arith)
end_loop-lt (suc zero) m h = ground arith
end_loop-lt (suc (suc n)) m h = ground (arith, end_loop-lt (suc n) m)

find_end-Agree : (n : ℕ) (m m' : Memory) → 0 < n → Agree n m m' → find_end m n ≡ find_end m' n
unfolding find_end
find_end-Agree n m m' pos a =
    let same = end_loop-Agree n m m' a in
    let byte = a (end_loop m n) (end_loop-lt n m pos) in rw (← same, byte) refl

-- What is copied from the start of a buffer to the start of another one.
write_list-slice0 : (b m : Memory) (n i : ℕ) → i < n → write_list b 0 (slice m 0 n) i ≡ m i
write_list-slice0 b m n i h =
    let e : 0 + i ≡ i = omega arith in
    cc (write_list-slice b m 0 0 n i h, ap m e, ap (write_list b 0 (slice m 0 n)) e)

module _ (buf : Memory) (at len max_len : ℕ) (rndfunc : ℕ → ℕ) (u : IsUniform rndfunc)
    (room : len + 8 ≤ max_len) (small : max_len + 64 < 4294967296) where
  pub padded_message_bounds :
      (len + 8 ≤ length (padded_message buf at len max_len rndfunc))
      × (length (padded_message buf at len max_len rndfunc) ≤ max_len)
  unfolding padded_message
  padded_message_bounds =
      let inner : Memory = λ i. buf (at + i) in
      let b = pad_buffer_bounds inner len max_len rndfunc u room small in
      let n =
        length-slice (pad_buffer inner len max_len rndfunc).0 0
          (pad_buffer inner len max_len rndfunc).1 in
      (omega (arith, n, b.0), omega (arith, n, b.1))

  -- The message is found in the padded bytes, wherever these are written.
  pub padded_message_cut :
      (b : Memory)
      → let t = padded_message buf at len max_len rndfunc in
        (find_end (write_list b 0 t) (length t) ≡ ok len)
        × (slice (write_list b 0 t) 0 len ≡ slice buf at len)
  unfolding padded_message
  padded_message_cut b =
      let inner : Memory = λ i. buf (at + i) in
      let m = (pad_buffer inner len max_len rndfunc).0 in
      let n = (pad_buffer inner len max_len rndfunc).1 in
      let bounds = pad_buffer_bounds inner len max_len rndfunc u room small in
      let found = find_end-pad_buffer inner len max_len rndfunc u room small in
      let same : Agree n (write_list b 0 (slice m 0 n)) m = write_list-slice0 b m n in
      let size = length-slice m 0 n in
      (
        ap (find_end (write_list b 0 (slice m 0 n))) size
            ∙ find_end-Agree n (write_list b 0 (slice m 0 n)) m (omega (arith, bounds.0)) same
            ∙ found.0,
        slice-ext (write_list b 0 (slice m 0 n)) m 0 len (λ j _ h. same j (omega (arith, bounds.0)))
            ∙ found.1
            ∙ slice-shift inner buf 0 at len (λ j h. ap inner {x = 0 + j} {y = j} (omega arith)),
      )

-- ===== src/Dns/Crypt/Padding.antt =====
-- dns/crypt/srcz/pad_buffer.cpp: `pad_buffer`, and dns/crypt/message_header.hxx: `find_end`. The
-- random function is an argument; `unsigned` is 32 bits wide.
pub mod Bounds
pub mod RoundTrip
use cdns.Prelude.{
  ltb, ◌==◌, if◌then◌else◌, Memory, write, no_end, Result, ok, err, ℕ, zero, suc, ◌+◌, ◌-◌, ◌%◌,
}

abbrev pub block_size : ℕ
block_size = 64

abbrev pub min_pad_len : ℕ
min_pad_len = 8

-- `padded_len`, for the number that the random function gives.
unfoldable pub padded_size : ℕ → ℕ → ℕ → ℕ
padded_size len max_len random =
    let padded_len = (len + min_pad_len + random) % 4294967296 in
    let padded_len = (padded_len + (block_size - padded_len % block_size)) % 4294967296 in
    if ltb max_len padded_len then max_len else padded_len

-- `std::memset (buf, 0, n)` from an address on.
unfoldable pub clear : Memory → ℕ → ℕ → Memory
clear m i zero = m
clear m i (suc n) = clear (write m i 0) (i + 1) n

-- `pad_buffer`: the buffer, and the new length.
unfoldable pub pad_buffer : Memory → ℕ → ℕ → (ℕ → ℕ) → Memory × ℕ
pad_buffer buf len max_len rndfunc =
    let padded_len = padded_size len max_len (rndfunc (max_len - len - min_pad_len + 1)) in
    if ltb max_len ((len + min_pad_len) % 4294967296)
    then (buf, len)
    else (write (clear buf len (padded_len - len)) len 0x80, padded_len)

-- The loop of `find_end`: the index at which it stops.
unfoldable pub end_loop : Memory → ℕ → ℕ
end_loop buf zero = 0
end_loop buf (suc size) = let before = end_loop buf size in if buf size == 0 then before else size

-- `find_end`
unfoldable pub find_end : Memory → ℕ → Result ℕ
find_end buf size = let size = end_loop buf size in if buf size == 0x80 then ok size else err no_end

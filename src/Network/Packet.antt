-- ===== src/Network/Packet.antt =====
-- network/packet.hxx and network/srcz/packet.cpp: a byte vector (`reserved` is its size) of which
-- the first `size` bytes are the message. Reads behind the vector are undefined in the source; the
-- memory of the model has some byte there.
pub mod Append
use Prim.Native.Nat.{min}
use cdns.Prelude.{
  ltb, ◌==◌, if◌then◌else◌, Bytes, Memory, write_list, slice, of_list, length, ℕ, ◌+◌, ◌-◌, ◌%◌,
  ◌≤◌, ◌<◌, Bool, not, ◌||◌,
}

pub record Packet : Type 0 where
  pub size : ℕ
  pub reserved : ℕ
  pub bytes : Memory

pub record IsPacket (p : Packet) : Type 0 where
  pub fits : p.size ≤ p.reserved
  pub small : p.reserved < 65536

-- `packet (const std::uint8_t *b, size_type l)`, the bytes given as a list.
unfoldable pub from_bytes : Bytes → Packet
from_bytes xs = record { size = length xs; reserved = length xs; bytes = of_list xs }

abbrev pub set_size : ℕ → Packet → Packet
set_size s p = record p { size = s }

-- `bytes_.resize (s)`: new bytes are zero.
unfoldable pub reserve : ℕ → Packet → Packet
reserve s p = record p { reserved = s; bytes = λ i. if ltb i p.reserved then p.bytes i else 0 }

-- The message: what `bytes()` and `size()` show.
abbrev pub contents : Packet → Bytes
contents p = slice p.bytes 0 p.size

unfoldable pub append : Packet → Packet → Packet
append other p =
    let new_size = p.size + other.size in
    if p.reserved == p.size
    then record {
      size = new_size % 65536;
      reserved = p.reserved + other.size;
      bytes = write_list p.bytes p.reserved (slice other.bytes 0 other.size);
    }
    else let sz = min (p.reserved - p.size) other.reserved in
      let copied = write_list p.bytes p.size (slice other.bytes 0 sz) in
      if ltb sz other.reserved
      then record {
        size = new_size % 65536;
        reserved = p.reserved + (other.reserved - sz);
        bytes = write_list copied p.reserved (slice other.bytes sz (other.reserved - sz));
      }
      else record { size = new_size % 65536; reserved = p.reserved; bytes = copied }

-- `packet::is_dns`, and `query::is_dns`, whose text is the same.
unfoldable pub is_dns : Packet → Bool
is_dns p = not (
    ltb p.size 15
    || not (p.bytes 4 == 0)
    || not (p.bytes 5 == 1)
    || not (p.bytes 10 == 0)
    || ltb 1 (p.bytes 11))

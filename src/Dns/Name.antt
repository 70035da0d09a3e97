-- ===== src/Dns/Name.antt =====
-- dns/srcz/query.cpp, `query::get_rr_name`: the owner name of a record, read label by label. The
-- labels before a compression pointer are the name; the pointer is not followed. The loop runs on
-- fuel, one unit for a label; each label moves the offset on, so one more than the packet's size
-- is enough.
pub mod Bounds
use cdns.Dns.Constants.{max_host_name_length, header_size}
use cdns.Network.Packet.{Packet}
use cdns.Prelude.{
  ltb, leb, ◌==◌, if◌then◌else◌, Bytes, Memory, length, short_message, bad_pointer, label_too_long,
  label_outside, bad_symbol, name_too_long, out_of_fuel, Result, ok, err, ◌>>=◌, ℕ, zero, suc, ◌+◌,
  ◌%◌, Bool, ◌||◌, [], ◌∷◌, ◌++◌,
}
use cdns.Sys.Ascii.{is_alnum}

unfoldable pub is_dns_char : ℕ → Bool
is_dns_char ch = is_alnum ch || ch == b'-'

-- The inner loop: the characters of a label.
unfoldable pub push_label : ℕ → Memory → ℕ → Bytes → Result Bytes
push_label zero pkt p owner = ok owner
push_label (suc n) pkt p owner =
    let rest = push_label n pkt (p + 1) (owner ++ pkt p ∷ []) in
    if is_dns_char (pkt p) then rest else err bad_symbol

-- One round of the outer loop at a length byte, with what a label of characters leads to.
unfoldable pub label_case : ℕ → ℕ → ℕ → Bytes → Result (ℕ × Bytes) → Result (ℕ × Bytes)
label_case label_len len offset owner more =
    if leb 192 label_len
    then (if ltb len (offset + 2) then err bad_pointer else ok (offset + 2, owner))
    else if leb 64 label_len
    then err label_too_long
    else if leb len (label_len + (offset + 1))
    then err label_outside
    else if label_len == 0
    then ok (label_len + (offset + 1), owner)
    else more

-- The outer loop: from an offset and the labels so far to the offset behind the name.
unfoldable pub get_labels : ℕ → Memory → ℕ → ℕ → Bytes → Result (ℕ × Bytes)
get_labels zero pkt len offset owner = err out_of_fuel
get_labels (suc fuel) pkt len offset owner =
    let more =
      (push_label (pkt offset) pkt (offset + 1) owner >>= λ pushed.
      let rest = get_labels fuel pkt len (pkt offset + (offset + 1)) (pushed ++ b'.' ∷ []) in
      if ltb max_host_name_length (length (pushed ++ b'.' ∷ []))
      then err name_too_long
      else rest) in
    label_case (pkt offset) len offset owner more

unfoldable pub get_rr_name : ℕ → Packet → Result (ℕ × Bytes)
get_rr_name off p =
    if ltb p.size header_size || leb p.size (off + 1)
    then err short_message
    else (get_labels (suc p.size) p.bytes p.size off [] >>= λ name. ok (name.0 % 65536, name.1))

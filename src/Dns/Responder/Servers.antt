-- ===== src/Dns/Responder/Servers.antt =====
-- The list of servers in resolv.conf is read line by line: `responder::from_file`.
use cdns.Dns.Filter.Load.{take_word, ignore_line}
use cdns.Dns.Hosts.Read.{ignore_line-append}
use cdns.Dns.Responder.Lines.{
  key_text, ServerLine, server_line, remark_line, unused_line, print_server_line,
  print_server_lines, print_unended, IsTail, IsAddressWord, IsServerLine, IsUnended, IsIndented,
  line_server, line_servers, skip_spaces-append, unended_server, take_word-append,
  starts_blank-append, ignore_line-All, take_word-line, skip_spaces-word, >>=-ok, >>=-ok-ok,
  key_text-word, key_text-found, nameserver_word,
}
use cdns.Dns.Responder.Load.{add_server, servers_loop, from_file}
use cdns.Network.Address.{Inet, Address, new_address}
use cdns.Prelude.{
  ◌==◌, if◌then◌else◌, Bytes, codes, length, length-append, All, ok, ◌>>=◌, ℕ, zero, suc, ◌+◌, ◌-◌,
  ◌≤◌, ◌<◌, ◌≡◌, refl, ap, ◌∙◌, Bool, false, Option, none, some, List, [], ◌∷◌, ◌++◌, arith,
}
use cdns.Sys.Text.{skip_spaces}

length-print_server_line :
    (l : ServerLine) (more : Bytes) → length more < length (print_server_line l more)
unfolding print_server_line
length-print_server_line (server_line a w t) more =
    omega (arith, length-append w (t ++ 10 ∷ more), length-append t (10 ∷ more))
length-print_server_line (remark_line t) more = omega (arith, length-append t (10 ∷ more))
length-print_server_line (unused_line k t) more =
    omega (arith, length-append (key_text k) (t ++ 10 ∷ more), length-append t (10 ∷ more))

length-print_server_lines :
    (ls : List (Bytes × ServerLine)) (more : Bytes)
    → length ls + length more ≤ length (print_server_lines ls more)
unfolding print_server_lines
length-print_server_lines [] more = omega arith
length-print_server_lines ((blank, l) ∷ ls) more =
    let rest = print_server_lines ls more in
    omega (
      arith,
      length-append blank (print_server_line l rest),
      length-print_server_line l rest,
      length-print_server_lines ls more,
    )

module _ (pton : Inet → Bytes → Option Bytes) (noipv6 tcp : Bool) where
  -- One turn of the loop reads a line.
  servers_loop-line :
      (fuel : ℕ) (l : Bytes × ServerLine) (more : Bytes)
      → IsIndented pton l
      → servers_loop pton noipv6 tcp (suc fuel) (l.0 ++ print_server_line l.1 more)
        ≡ (servers_loop pton noipv6 tcp fuel more >>= λ ps. ok (line_server noipv6 tcp l.1 ps))
  unfolding servers_loop print_server_line line_server add_server IsServerLine
  servers_loop-line fuel (blank, server_line a w t) more (b, ((some_word, word, read), tail)) =
      let rest = t ++ 10 ∷ more in
      let n = nameserver_word in
      let filled : (length rest == 0) ≡ false = ground (arith, length-append t (10 ∷ more)) in
      let space : skip_spaces (32 ∷ (w ++ rest)) ≡ w ++ rest =
        unfold skip_spaces in skip_spaces-word w rest some_word word in
      let skip : ignore_line 100000000000 rest ≡ more =
        ignore_line-append 100000000000 t more tail.0.0 (omega (arith, tail.0.1)) in
      rw
        (
          skip_spaces-append blank (codes "nameserver" ++ 32 ∷ (w ++ rest)) b,
          skip_spaces-word (codes "nameserver") (32 ∷ (w ++ rest)) (omega arith) n.0,
          take_word-append (codes "nameserver") (32 ∷ (w ++ rest)) n.0 refl,
          n.1,
          n.2,
          space,
          take_word-append w rest word (starts_blank-append t more tail),
          filled,
          read,
          skip,
        )
        refl
  servers_loop-line fuel (blank, remark_line t) more (b, h) =
      let r = take_word-line t more h in
      let front : take_word (35 ∷ (t ++ 10 ∷ more))
          ≡ (35 ∷ (take_word (t ++ 10 ∷ more)).0, (take_word (t ++ 10 ∷ more)).1) =
        unfold take_word in refl in
      let space : skip_spaces (35 ∷ (t ++ 10 ∷ more)) ≡ 35 ∷ (t ++ 10 ∷ more) =
        unfold skip_spaces in refl in
      let word = (take_word (t ++ 10 ∷ more)).0 in
      let filled : (length (35 ∷ word) == 0) ≡ false = ground arith in
      let skip = ignore_line-append 100000 r.0 more r.1.0 (omega (arith, r.1.1)) in
      rw (skip_spaces-append blank (35 ∷ (t ++ 10 ∷ more)) b, space, front, filled, r.2, skip)
        (>>=-ok (servers_loop pton noipv6 tcp fuel more))
  servers_loop-line fuel (blank, unused_line key t) more (b, tail) =
      let f = key_text-found key in
      let v = key_text-word key in
      let skip = ignore_line-append 100000 t more tail.0.0 (omega (arith, tail.0.1)) in
      rw
        (
          skip_spaces-append blank (key_text key ++ (t ++ 10 ∷ more)) b,
          skip_spaces-word (key_text key) (t ++ 10 ∷ more) f.2 v,
          take_word-append (key_text key) (t ++ 10 ∷ more) v (starts_blank-append t more tail),
          f.0,
          f.1,
          skip,
        )
        (>>=-ok (servers_loop pton noipv6 tcp fuel more))

  servers_loop-lines :
      (ls : List (Bytes × ServerLine)) (fuel : ℕ) (more : Bytes)
      → All (IsIndented pton) ls
      → servers_loop pton noipv6 tcp (length ls + fuel) (print_server_lines ls more)
        ≡ (servers_loop pton noipv6 tcp fuel more >>= λ ps. ok (line_servers noipv6 tcp ls ps))
  unfolding print_server_lines line_servers
  servers_loop-lines [] fuel more h =
      let e : 0 + fuel ≡ fuel = omega arith in
      rw e (>>=-ok (servers_loop pton noipv6 tcp fuel more))
  servers_loop-lines (l ∷ ls) fuel more h =
      let e : suc (length ls) + fuel ≡ suc (length ls + fuel) = omega arith in
      ap (λ n. servers_loop pton noipv6 tcp n (print_server_lines (l ∷ ls) more)) e
      ∙ servers_loop-line (length ls + fuel) l (print_server_lines ls more) h.0
      ∙ ap (λ r. r >>= λ ps. ok (line_server noipv6 tcp l.1 ps))
          (servers_loop-lines ls fuel more h.1)
      ∙ >>=-ok-ok (servers_loop pton noipv6 tcp fuel more) (line_servers noipv6 tcp ls)
          (line_server noipv6 tcp l.1)

  -- A turn on nothing ends the loop.
  servers_loop-end : (fuel : ℕ) → servers_loop pton noipv6 tcp (suc fuel) [] ≡ ok []
  unfolding servers_loop
  servers_loop-end fuel = unfold skip_spaces take_word in refl

  servers_loop-last :
      (fuel : ℕ) (a : Address) (w t : Bytes)
      → IsAddressWord pton a w
      → IsTail t
      → servers_loop pton noipv6 tcp (suc (suc fuel)) (print_unended (some (a, w, t)))
        ≡ ok (unended_server noipv6 tcp (some (a, w, t)))
  unfolding servers_loop print_unended unended_server line_server add_server
  servers_loop-last fuel a w t (some_word, word, read) tail =
      let n = nameserver_word in
      let space : skip_spaces (32 ∷ (w ++ t)) ≡ w ++ t =
        unfold skip_spaces in skip_spaces-word w t some_word word in
      rw
        (
          skip_spaces-word (codes "nameserver") (32 ∷ (w ++ t)) (omega arith) n.0,
          take_word-append (codes "nameserver") (32 ∷ (w ++ t)) n.0 refl,
          n.1,
          n.2,
          space,
          take_word-append w t word tail.1,
        )
        (by_tail t tail)
    where
      by_tail :
          (t : Bytes)
          → IsTail t
          → (if length t == 0
              then ok []
              else (new_address pton w 53 >>= λ b.
                  servers_loop pton noipv6 tcp (suc fuel) (ignore_line 100000000000 t) >>= λ ps.
                  ok (add_server noipv6 tcp b ps)))
            ≡ ok (unended_server noipv6 tcp (some (a, w, t)))
      by_tail [] h = refl
      by_tail (c ∷ t) h =
          let filled : (length (c ∷ t) == 0) ≡ false = ground arith in
          let skip = ignore_line-All 100000000000 (c ∷ t) h.0.0 (omega (arith, h.0.1)) in
          rw (filled, read, skip, servers_loop-end fuel) refl

  servers_loop-unended :
      (fuel : ℕ) (last : Option (Address × Bytes × Bytes))
      → length (print_unended last) ≤ fuel
      → IsUnended pton last
      → servers_loop pton noipv6 tcp (suc fuel) (print_unended last)
        ≡ ok (unended_server noipv6 tcp last)
  unfolding print_unended unended_server IsUnended
  servers_loop-unended fuel none k i = servers_loop-end fuel
  servers_loop-unended zero (some (a, w, t)) k i = absurd (omega (arith, k))
  servers_loop-unended (suc fuel) (some (a, w, t)) k (i, tail) = servers_loop-last fuel a w t i tail

  -- For lines with blanks in front of them, the addresses as texts that the constructor of an address reads,
  -- and less than 99999 characters behind the address, the sign or the key of a line, of which the first,
  -- if there is one behind an address or a key, is a space; and for a last line without a line feed, if
  -- there is one: the servers that are read are those of the ended lines, in their order, and behind
  -- them that of the last line where anything follows its address, and not else; each only if its
  -- family is wanted.
  pub from_file-print_server_lines :
      (ls : List (Bytes × ServerLine)) (last : Option (Address × Bytes × Bytes))
      → All (IsIndented pton) ls
      → IsUnended pton last
      → from_file pton noipv6 tcp (print_server_lines ls (print_unended last))
        ≡ ok (line_servers noipv6 tcp ls (unended_server noipv6 tcp last))
  unfolding from_file
  from_file-print_server_lines ls last h i =
      let text = print_server_lines ls (print_unended last) in
      let long = length-print_server_lines ls (print_unended last) in
      let n = length text - length ls in
      let e : suc (length text) ≡ length ls + suc n = omega (arith, long) in
      ap (λ fuel. servers_loop pton noipv6 tcp fuel text) e
      ∙ servers_loop-lines ls (suc n) (print_unended last) h
      ∙ ap (λ r. r >>= λ ps. ok (line_servers noipv6 tcp ls ps))
          (servers_loop-unended n last (omega (arith, long)) i)

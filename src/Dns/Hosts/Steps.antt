-- ===== src/Dns/Hosts/Steps.antt =====
-- The reader of a file of hosts, in whole words.
use cdns.Dns.Hosts.{
  HostMap, HostsState, is_line_break, is_word_break, end_word, skip_comment, hosts_loop,
}
use cdns.Dns.Hosts.Loaded.{IsHosts, skip_comment-shorter, Ends, end_word-Ends}
use cdns.Network.Address.{Inet}
use cdns.Prelude.{
  leb, Bool-cases, Bytes, length, length-append, All, Result, ok, ℕ, zero, suc, ◌+◌, ◌≤◌, ◌<◌, ◌≡◌,
  refl, sym, ap, ◌∙◌, inl, inr, Bool, true, false, Option, [], ◌∷◌, ◌++◌, append-nil, append_assoc,
  arith,
}

-- What `Ends` says where the end of a word succeeds.
Ends-ok :
    (text : Bytes) (r : Result (HostsState × Bytes)) {t : HostsState × Bytes}
    → Ends text r
    → r ≡ ok t
    → (length t.1 ≤ length text) × IsHosts t.0.host_ip_map_
Ends-ok text r {t} (inl (t', e, k, w)) h = let q : t' ≡ t = cc in rw (← q) (k, w)
Ends-ok text r (inr e) h = cc

module _ (pton : Inet → Bytes → Option Bytes) (noipv6 : Bool) where
  -- What is read from here on.
  abbrev pub hosts_run : Bytes → HostsState → Result HostMap
  hosts_run text s = hosts_loop pton noipv6 (suc (length text)) text s

  loop_fuel :
      (n m : ℕ) (text : Bytes) (s : HostsState)
      → IsHosts s.host_ip_map_
      → length text < n
      → length text < m
      → hosts_loop pton noipv6 n text s ≡ hosts_loop pton noipv6 m text s
  unfolding hosts_loop
  loop_fuel zero m text s v a b = absurd (omega arith)
  loop_fuel (suc n) zero text s v a b = absurd (omega arith)
  loop_fuel (suc n) (suc m) [] s v a b = refl
  loop_fuel (suc n) (suc m) (ch ∷ rest) s v a b = elim (Bool-cases (is_line_break ch)) [
    | inl at_line ↦
        let c = skip_comment-shorter ch rest in
        elim (end_word-Ends pton noipv6 true (skip_comment ch rest) s v) [
          | inl (t, e, k, w) ↦
              rw (hosts_loop, at_line, e)
                (loop_fuel n m t.1 (record t.0 { ip = [] }) w (omega (arith, k, c, a))
                  (omega (arith, k, c, b)))
          | inr e ↦ rw (hosts_loop, at_line, e) refl
        ]
    | inr inside ↦ elim (Bool-cases (is_word_break ch)) [
      | inl at_word ↦ elim (end_word-Ends pton noipv6 false rest s v) [
        | inl (t, e, k, w) ↦
            rw (hosts_loop, inside, at_word, e)
              (loop_fuel n m t.1 t.0 w (omega (arith, k, a)) (omega (arith, k, b)))
        | inr e ↦ rw (hosts_loop, inside, at_word, e) refl
      ]
      | inr letter ↦
          let ih =
            loop_fuel n m rest (record s { word = s.word ++ ch ∷ [] }) v (omega (arith, a))
              (omega (arith, b)) in
          rw (hosts_loop, inside, letter, ih) refl
    ]
  ]

  pub run_letter :
      (ch : ℕ) (rest : Bytes) (s : HostsState)
      → is_line_break ch ≡ false
      → is_word_break ch ≡ false
      → length s.word + 1 < 2048
      → hosts_run (ch ∷ rest) s ≡ hosts_run rest (record s { word = s.word ++ ch ∷ [] })
  unfolding hosts_loop
  run_letter ch rest s inside letter short =
      let n = length-append s.word (ch ∷ []) in
      let k : leb 2048 (length (s.word ++ ch ∷ [])) ≡ false = ground (arith, n, short) in
      rw (inside, letter, k) refl

  pub run_word :
      (w rest : Bytes) (s : HostsState)
      → All (λ ch. (is_line_break ch ≡ false) × (is_word_break ch ≡ false)) w
      → length s.word + length w < 2048
      → hosts_run (w ++ rest) s ≡ hosts_run rest (record s { word = s.word ++ w })
  run_word [] rest s h k =
      ap (λ w. hosts_run rest (record s { word = w })) (sym (append-nil s.word))
  run_word (ch ∷ w) rest s h k =
      let n = length-append s.word (ch ∷ []) in
      run_letter ch (w ++ rest) s h.0.0 h.0.1 (omega (arith, k))
      ∙ run_word w rest (record s { word = s.word ++ ch ∷ [] }) h.1 (omega (arith, n, k))
      ∙ ap (λ w. hosts_run rest (record s { word = w })) (append_assoc s.word (ch ∷ []) w)

  pub run_break :
      (ch : ℕ) (rest : Bytes) (s : HostsState) {t : HostsState × Bytes}
      → is_line_break ch ≡ false
      → is_word_break ch ≡ true
      → IsHosts s.host_ip_map_
      → end_word pton noipv6 false rest s ≡ ok t
      → hosts_run (ch ∷ rest) s ≡ hosts_run t.1 t.0
  unfolding hosts_loop
  run_break ch rest s {t} inside at_word v e =
      let b =
        Ends-ok rest (end_word pton noipv6 false rest s) (end_word-Ends pton noipv6 false rest s v)
          e in
      rw (hosts_loop, inside, at_word, e)
        (loop_fuel (suc (length rest)) (suc (length t.1)) t.1 t.0 b.1 (omega (arith, b.0))
          (omega arith))

  pub run_line :
      (ch : ℕ) (rest : Bytes) (s : HostsState) {t : HostsState × Bytes}
      → is_line_break ch ≡ true
      → IsHosts s.host_ip_map_
      → end_word pton noipv6 true (skip_comment ch rest) s ≡ ok t
      → hosts_run (ch ∷ rest) s ≡ hosts_run t.1 (record t.0 { ip = [] })
  unfolding hosts_loop
  run_line ch rest s {t} at_line v e =
      let c = skip_comment-shorter ch rest in
      let text = skip_comment ch rest in
      let b =
        Ends-ok text (end_word pton noipv6 true text s) (end_word-Ends pton noipv6 true text s v)
          e in
      rw (hosts_loop, at_line, e)
        (loop_fuel (suc (length rest)) (suc (length t.1)) t.1 (record t.0 { ip = [] }) b.1
          (omega (arith, b.0, c)) (omega arith))

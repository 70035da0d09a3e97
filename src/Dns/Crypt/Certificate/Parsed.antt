-- ===== src/Dns/Crypt/Certificate/Parsed.antt =====
-- What is known of a certificate that the constructor accepts.
use cdns.Dns.Crypt.Certificate.{
  Certificate, undefined, version_at, data_at, cert_parse_version, cipher_of, ts, check_dates,
  new_certificate,
}
use cdns.Prelude.{
  ltb, leb, ◌==◌, ltb→lt, leb→le, ==_iff, Bytes, length, drop, Error, invalid_certificate, Result,
  ok, ◌>>=◌, guard, ℕ, ◌%◌, ◌≤◌, ◌<◌, ◌≡◌, refl, subst, ◌≢◌, Bool, true, false, ◌&&◌, arith,
}

parse_version-cipher :
    (c : Certificate) → cert_parse_version c.version_ ≡ true → cipher_of c ≢ undefined
unfolding cert_parse_version cipher_of
parse_version-cipher c h e = ground arith

guard-ok :
    (b : Bool) (x : Error) {A : Type 0} (k : Unit {0} → Result A) {a : A}
    → (guard b x >>= k) ≡ ok a
    → (b ≡ true) × (k tt ≡ ok a)
guard-ok true x k h = (refl, h)
guard-ok false x k h = cc

check_dates_lem :
    (now : ℕ) (d : Certificate) {c : Certificate}
    → check_dates now d ≡ ok c
    → (d ≡ c)
      × ((ts d).0 ≤ now % 4294967296)
      × (now % 4294967296 ≤ (ts d).1)
      × ((ts d).0 < (ts d).1)
unfolding check_dates
check_dates_lem now d {c} e =
    let (a, e1) = guard-ok (ltb (ts d).0 (ts d).1) invalid_certificate _ e in
    let (b, e2) = guard-ok (leb (ts d).0 (now % 4294967296)) invalid_certificate _ e1 in
    let (f, e3) = guard-ok (leb (now % 4294967296) (ts d).1) invalid_certificate _ e2 in
    (cc (e3), leb→le _ _ b, leb→le _ _ f, ltb→lt _ _ a)

-- A certificate that is accepted has a version that says which cipher to use, is valid at the
-- time it is read, taken as 32 bits, with dates that begin before they end;
-- `crypto_sign_ed25519_open` gave no error for it; and it holds the data that this function gave
-- and the bytes it was read from.
pub new_certificate_lem :
    (sign_open : Bytes → Bytes → ℕ × Bytes) (now : ℕ) (key signed : Bytes) {c : Certificate}
    → new_certificate sign_open now key signed ≡ ok c
    → (cipher_of c ≢ undefined)
      × ((ts c).0 ≤ now % 4294967296)
      × (now % 4294967296 ≤ (ts c).1)
      × ((ts c).0 < (ts c).1)
      × ((sign_open key (drop 8 signed)).0 ≡ 0)
      × (c.data_ ≡ data_at (sign_open key (drop 8 signed)).1)
      × (c.raw_signed_ ≡ signed)
unfolding new_certificate
new_certificate_lem sign_open now key signed {c} e =
    let opened = sign_open key (drop 8 signed) in
    let (_, e1) =
      guard-ok (leb (length signed) 65000 && leb 8 (length signed)) invalid_certificate _ e in
    let (v, e2) = guard-ok (cert_parse_version (version_at signed)) invalid_certificate _ e1 in
    let (_, e3) = guard-ok (leb 52 (length opened.1)) invalid_certificate _ e2 in
    let (z, e4) = guard-ok (opened.0 == 0) invalid_certificate _ e3 in
    let d : Certificate = record {
      version_ = version_at signed;
      data_ = data_at opened.1;
      raw_signed_ = signed;
    } in
    let (same, begins, ends, order) = check_dates_lem now d e4 in
    subst
      (λ x.
        (cipher_of x ≢ undefined)
        × ((ts x).0 ≤ now % 4294967296)
        × (now % 4294967296 ≤ (ts x).1)
        × ((ts x).0 < (ts x).1)
        × (opened.0 ≡ 0)
        × (x.data_ ≡ data_at opened.1)
        × (x.raw_signed_ ≡ signed))
      same (parse_version-cipher d v, begins, ends, order, (==_iff opened.0 0).0 z, refl, refl)

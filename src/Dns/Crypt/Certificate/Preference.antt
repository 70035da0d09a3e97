-- ===== src/Dns/Crypt/Certificate/Preference.antt =====
-- The order of certificates: by version, then by serial number.
use cdns.Dns.Crypt.Certificate.{Certificate, serial_of, version_of, is_preferred_over}
use cdns.Prelude.{◌≤◌, ◌<◌, ◌≡◌, ◌↔◌, ◌⊎◌, true, false, not, ◌&&◌, arith}

-- The order that `is_preferred_over` decides.
abbrev pub Precedes : Certificate → Certificate → Type 0
Precedes d c =
    (version_of d < version_of c) ⊎ ((version_of d ≡ version_of c) × (serial_of d ≤ serial_of c))

pub preferred_iff : (c d : Certificate) → (is_preferred_over c d ≡ true) ↔ Precedes d c
unfolding is_preferred_over
preferred_iff c d = ground arith

-- A certificate is preferred over a second one exactly when its version is higher, or the versions
-- are the same and its serial number is not lower. So it is preferred over itself, of two
-- certificates one is preferred over the other, and preference goes on from one certificate to the next.
is_preferred_over_lem :
    (c d e : Certificate)
    → ((is_preferred_over c d ≡ true) ↔ Precedes d c)
      × ((is_preferred_over c d ≡ true) ⊎ (is_preferred_over d c ≡ true))
      × ((is_preferred_over e d && is_preferred_over d c && not (is_preferred_over e c)) ≡ false)
is_preferred_over_lem c d e = (
  preferred_iff c d,
  ground (arith, preferred_iff c d, preferred_iff d c),
  ground (arith, preferred_iff e d, preferred_iff d c, preferred_iff e c),
)

pub Precedes-trans : (c d e : Certificate) → Precedes c d → Precedes d e → Precedes c e
Precedes-trans c d e h k = omega arith

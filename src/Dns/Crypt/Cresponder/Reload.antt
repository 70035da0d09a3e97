-- ===== src/Dns/Crypt/Cresponder/Reload.antt =====
-- dns/crypt/srcz/cresponder.cpp: `reload` and the constructor, which read the files of the inherited responder
-- and the list of DNSCrypt servers. The timers are left out.
use cdns.Dns.Crypt.Certificate.{EncryptorData}
use cdns.Dns.Crypt.Cresponder.{ServerEnd, Cresponder}
use cdns.Dns.Crypt.Cresponder.Load.{certifier_of, load_providers, crypt_load}
use cdns.Dns.Crypt.Resolvers.{ListedResolver, parse_resolvers_list}
use cdns.Dns.Responder.Load.{from_file, Parameters, file_text, reload, new_responder}
use cdns.Dns.Responder.Reloaded.{IsReloaded, reload-IsReloaded}
use cdns.Network.Address.{Inet}
use cdns.Prelude.{Bytes, Error, Result, err, ok, ℕ, ◌≡◌, refl, sym, subst, Option, none, some, []}

-- The second half of `cresponder::reload`, which an exception of the first leaves out.
unfoldable pub load_list :
    (Inet → Bytes → Option Bytes)
    → (Inet → Bytes → Bytes)
    → (Bytes → ℕ × Bytes)
    → (ListedResolver → EncryptorData)
    → (Bytes → Option Bytes)
    → Parameters
    → Bytes
    → Option Error
    → Cresponder
    → Cresponder × Option Error
load_list inet_pton inet_ntop sodium_hex2bin client files p list_file (some e) c = (c, some e)
load_list inet_pton inet_ntop sodium_hex2bin client files p list_file none c =
    crypt_load inet_pton inet_ntop sodium_hex2bin client p.noipv6 p.net_proto (files list_file) c

-- `cresponder::reload`
unfoldable pub crypt_reload :
    (Inet → Bytes → Option Bytes)
    → (Inet → Bytes → Bytes)
    → (Bytes → ℕ × Bytes)
    → (ListedResolver → EncryptorData)
    → (Bytes → Option Bytes)
    → Parameters
    → Bytes
    → Cresponder
    → Cresponder × Option Error
crypt_reload inet_pton inet_ntop sodium_hex2bin client files p list_file c =
    let r = reload inet_pton files p c.base in
    load_list inet_pton inet_ntop sodium_hex2bin client files p list_file r.1
      (record c { base = r.0 })

-- `cresponder (params, dnscrypt_resolvers_file, srv)`: no object is made if an exception leaves it.
unfoldable pub new_cresponder :
    (Inet → Bytes → Option Bytes)
    → (Inet → Bytes → Bytes)
    → (Bytes → ℕ × Bytes)
    → (ListedResolver → EncryptorData)
    → (Bytes → Option Bytes)
    → ℕ
    → Parameters
    → Bytes
    → Option ServerEnd
    → Result Cresponder
new_cresponder inet_pton inet_ntop sodium_hex2bin client files now p list_file srv =
    let r = new_responder inet_pton files now p in
    let c : Cresponder = record { base = r.0; dnscrypt_providers = []; server_end = srv } in
    let loaded =
      crypt_load inet_pton inet_ntop sodium_hex2bin client p.noipv6 p.net_proto (files list_file)
        c in
    elim r.1 [ some e ↦ err e | none ↦ elim loaded.1 [ some e ↦ err e | none ↦ ok loaded.0 ] ]

load_list_lem :
    (pton : Inet → Bytes → Option Bytes) (ntop : Inet → Bytes → Bytes)
    (sodium_hex2bin : Bytes → ℕ × Bytes) (client : ListedResolver → EncryptorData)
    (files : Bytes → Option Bytes) (p : Parameters) (list_file : Bytes) (o : Option Error)
    (c : Cresponder)
    → let s = (load_list pton ntop sodium_hex2bin client files p list_file o c).0 in
      (s.base ≡ c.base)
      × (s.server_end ≡ c.server_end)
      × (s.dnscrypt_providers ≡ elim o [
        | some e ↦ c.dnscrypt_providers
        | none ↦
            (load_providers ntop
              (λ r. certifier_of (client r) r)
              p.noipv6
              (parse_resolvers_list pton sodium_hex2bin p.net_proto (files list_file))
              c.dnscrypt_providers).0
      ])
unfolding load_list crypt_load
load_list_lem pton ntop sodium_hex2bin client files p list_file (some e) c = (refl, refl, refl)
load_list_lem pton ntop sodium_hex2bin client files p list_file none c = (refl, refl, refl)

-- For any files, parameters and responder: after a reload, also one that an exception leaves, the inherited
-- part is as after its own reload, the keys of this server are as they were, and the DNSCrypt servers are
-- those of the new list merged into those that were there, but as they were if the inherited reload
-- threw.
pub crypt_reload_lem :
    (pton : Inet → Bytes → Option Bytes) (ntop : Inet → Bytes → Bytes)
    (sodium_hex2bin : Bytes → ℕ × Bytes) (client : ListedResolver → EncryptorData)
    (files : Bytes → Option Bytes) (p : Parameters) (list_file : Bytes) (c : Cresponder)
    → let s = (crypt_reload pton ntop sodium_hex2bin client files p list_file c).0 in
      let listed = from_file pton p.noipv6 p.net_proto (file_text (files p.resolvers)) in
      IsReloaded p listed c.base s.base
      × (s.server_end ≡ c.server_end)
      × (s.dnscrypt_providers ≡ elim (reload pton files p c.base).1 [
        | some e ↦ c.dnscrypt_providers
        | none ↦
            (load_providers ntop
              (λ r. certifier_of (client r) r)
              p.noipv6
              (parse_resolvers_list pton sodium_hex2bin p.net_proto (files list_file))
              c.dnscrypt_providers).0
      ])
unfolding crypt_reload
crypt_reload_lem pton ntop sodium_hex2bin client files p list_file c =
    let r = reload pton files p c.base in
    let (b, e, d) =
      load_list_lem pton ntop sodium_hex2bin client files p list_file r.1
        (record c { base = r.0 }) in
    let listed = from_file pton p.noipv6 p.net_proto (file_text (files p.resolvers)) in
    (subst (IsReloaded p listed c.base) (sym b) (reload-IsReloaded pton files p c.base), e, d)

-- ===== src/Tests/Certifier.antt =====
-- A certifier that makes two requests, of which the first one fails.
use cdns.Dns.Crypt.Certificate.{Resolver, BeforeNm}
use cdns.Dns.Crypt.Certifier.{Certifier, new_certifier, update}
use cdns.Dns.Crypt.Certifier.Bounds.{updates, no_event, one_more, IsPaced, Events-IsPaced}
use cdns.Prelude.{Bytes, ℕ, true, false, []}
use cdns.Tests.Channel.{client_keys}

abbrev pub fresh_resolver : Resolver
fresh_resolver = record {
  pubkey_ = [];
  resolver_pubkey_ = [];
  dnscrypt_magic_query_ = [];
  ready_ = false;
  client = client_keys;
}

abbrev one_key : BeforeNm
one_key cipher public secret = (0, [])

abbrev all_signed : Bytes → Bytes → ℕ × Bytes
all_signed key signed = (0, signed)

abbrev tried_twice : Certifier
tried_twice = update false true false (update false false false (new_certifier fresh_resolver))

Events-IsPaced_example : IsPaced tried_twice
Events-IsPaced_example =
    Events-IsPaced one_key all_signed fresh_resolver tried_twice
      (one_more (one_more no_event (updates false false false)) (updates false true false))

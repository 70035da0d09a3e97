-- ===== src/Tests/Cresponder.antt =====
-- A responder that serves one client that encrypts, refuses one name and asks one DNSCrypt server.
use cdns.Dns.Crypt.Certificate.{Certificate}
use cdns.Dns.Crypt.Certifier.{Certifier, new_certifier}
use cdns.Dns.Crypt.Client.{zeros12, client_curve, client_uncurve}
use cdns.Dns.Crypt.Cresponder.{
  ServerEnd, Cresponder, Session, plain_provider, crypt_provider, find_crypt_provider,
  crypt_random_provider, sent, crypt_handle, crypt_process, crypt_pass_answer,
}
use cdns.Dns.Crypt.Cresponder.Choosing.{IsKeyed, crypt_random_provider_lem}
use cdns.Dns.Crypt.Cresponder.Load.{certifier_of, find_listed, crypt_load}
use cdns.Dns.Crypt.Cresponder.Loaded.{loaded_server, crypt_load_lem}
use cdns.Dns.Crypt.Cresponder.Secret.{client_uncurve-crypt_pass_answer}
use cdns.Dns.Crypt.Resolvers.{parse_resolvers_list, save_resolvers}
use cdns.Dns.Crypt.Resolvers.RoundTrip.{as_read, parse_resolvers_list-save_resolvers}
use cdns.Dns.Filter.Load.{no_filter}
use cdns.Dns.Header.{header}
use cdns.Dns.Info.{check_rcode, info_questions, info_answers, short_info}
use cdns.Dns.Responder.{listed, zone_provider, respond_with, pass_answer_downstream}
use cdns.Network.Packet.{Packet, contents}
use cdns.Prelude.{
  ◌==◌, if◌then◌else◌, Bytes, codes, All, Error, ok, ◌≡◌, refl, ◌⊎◌, true, false, Option, none,
  some, [], ◌∷◌, arith,
}
use cdns.Tests.Address.{OneAddress, one_text, one_parser, one_laws}
use cdns.Tests.Certifier.{fresh_resolver}
use cdns.Tests.Channel.{
  shared_bytes, clear_box, clear_box_laws, end_keys, client_keys, client_keys-Paired, message,
}
use cdns.Tests.Crypt.{zero_random}
use cdns.Tests.Messages.{answer}
use cdns.Tests.Resolvers.{read_hex, read_hex-HexLaw, listed_server, listed_server-IsSaved}
use cdns.Tests.Responder.{no_addresses, responder}

abbrev magic_certificate : Certificate
magic_certificate = record {
  version_ = record { magic = []; major = 0 ∷ 2 ∷ []; minor = [] };
  data_ = record {
    server_publickey = shared_bytes;
    magic_query = codes "magicnum";
    serial = [];
    ts_begin = [];
    ts_end = [];
  };
  raw_signed_ = [];
}

abbrev one_end : ServerEnd
one_end = record {
  server_keys = end_keys;
  certificate = magic_certificate;
  hostname_ = codes "2.host";
}

abbrev ready_certifier : Certifier
ready_certifier = new_certifier (record fresh_resolver { ready_ = true })

abbrev pub cresponder : Cresponder
cresponder = record {
  base = record responder { blacklist = record no_filter { exact_ = codes "a" ∷ [] } };
  dnscrypt_providers = (codes "9.9.9.9:443", ready_certifier) ∷ [];
  server_end = some one_end;
}

abbrev failure : Packet
failure = record { size = 40; reserved = 1000; bytes = λ i. if i == 3 then 5 else 0 }

failure_answers :
    (pass_answer_downstream 1000 failure cresponder.base).1 ≡ respond_with failure none
unfolding pass_answer_downstream header short_info check_rcode info_questions info_answers
failure_answers = refl

client_uncurve-crypt_pass_answer_example :
    let c = cresponder in
    let session : Session = (shared_bytes, zeros12) in
    (q : Packet) × (r : Packet) × (a : Packet) × (b : Packet) × (client_curve clear_box
        (λ n. 0)
        client_keys
        zeros12
        message
      ≡ ok q)
    × (crypt_process no_addresses clear_box zeros12 true 1000 7 q c
        ≡ crypt_handle no_addresses clear_box zeros12 true 1000 7 (some session) r c)
    × (contents r ≡ contents message)
    × ((crypt_pass_answer clear_box zeros12 1000
          (plain_provider (listed 0))
          (some session)
          failure
          c).1
        ≡ sent a none)
    × (client_uncurve clear_box client_keys zeros12 a ≡ ok b)
    × (contents b ≡ contents failure)
    × ((crypt_pass_answer clear_box zeros12 1000
          (crypt_provider (codes "9.9.9.9:443"))
          (some session)
          failure
          c).1
        ≡ sent failure none)
client_uncurve-crypt_pass_answer_example =
    client_uncurve-crypt_pass_answer clear_box clear_box_laws client_keys one_end client_keys-Paired
      refl (λ n. 0) zero_random zeros12 refl message (omega arith) (omega arith) cresponder refl
      no_addresses zeros12 refl true 1000 7 failure none (listed 0) (codes "9.9.9.9:443")
      failure_answers (omega arith) (omega arith) (omega arith)

no_zone : zone_provider answer cresponder.base ≡ ok none
unfolding zone_provider
no_zone = refl

crypt_random_provider_lem_example :
    ((key : Bytes) × (d : Certifier) × (crypt_random_provider 7 answer cresponder
        ≡ ok (some (crypt_provider key)))
      × (find_crypt_provider key cresponder.dnscrypt_providers ≡ some d)
      × (d.resolver.ready_ ≡ true))
    ⊎ ((crypt_random_provider 7 answer cresponder ≡ ok none)
        × All (λ e. e.1.resolver.ready_ ≡ false) cresponder.dnscrypt_providers)
crypt_random_provider_lem_example =
    crypt_random_provider_lem 7 answer cresponder (tt, omega arith, tt) (omega arith) no_zone

file_read :
    parse_resolvers_list one_parser read_hex true
      (some (save_resolvers one_text (listed_server ∷ [])))
    ≡ ok (as_read true listed_server ∷ [])
file_read =
    parse_resolvers_list-save_resolvers one_parser one_text OneAddress one_laws read_hex
      read_hex-HexLaw true (listed_server ∷ []) (listed_server-IsSaved, tt)

abbrev loaded : Cresponder × Option Error
loaded =
    crypt_load one_parser one_text read_hex (λ r. client_keys) false true
      (some (save_resolvers one_text (listed_server ∷ []))) cresponder

crypt_load_lem_example :
    (loaded.1 ≡ none)
    × IsKeyed loaded.0.dnscrypt_providers
    × ((key : Bytes)
        → find_crypt_provider key loaded.0.dnscrypt_providers
          ≡ loaded_server one_text
              (λ r. certifier_of client_keys r)
              false
              (find_listed one_text key (as_read true listed_server ∷ []))
              (find_crypt_provider key cresponder.dnscrypt_providers))
crypt_load_lem_example =
    crypt_load_lem one_text one_parser read_hex (λ r. client_keys) false true
      (some (save_resolvers one_text (listed_server ∷ []))) cresponder
      (as_read true listed_server ∷ []) file_read (tt, tt) (tt, omega arith, tt)

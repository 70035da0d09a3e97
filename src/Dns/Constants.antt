-- ===== src/Dns/Constants.antt =====
-- dns/constants.hxx, dns/message_header.hxx and the constants of dns/query.hxx: codes are numbers,
-- as on the wire, and named where the code names them.
use cdns.Prelude.{ℕ}

abbrev pub max_host_name_length : ℕ
max_host_name_length = 256

-- `-10000U + std::max (tcp_max_size, udp_edns_max_size)`
abbrev pub max_size : ℕ
max_size = 55535

-- `sizeof (message_header)`
abbrev pub header_size : ℕ
header_size = 12

-- `sizeof (rr_question_header)`
abbrev pub rr_question_header_size : ℕ
rr_question_header_size = 4

-- `sizeof (rr_header)`
abbrev pub rr_header_size : ℕ
rr_header_size = 10

-- `enum class pkt_rcode : std::uint8_t`
pub data PktRcode : Type 0 where
  noerror formerr servfail nxdomain notimpl refused yxdomain yxrrset nxrrset notauth notzone :
      PktRcode

abbrev pub rcode_value : PktRcode → ℕ
rcode_value noerror = 0
rcode_value formerr = 1
rcode_value servfail = 2
rcode_value nxdomain = 3
rcode_value notimpl = 4
rcode_value refused = 5
rcode_value yxdomain = 6
rcode_value yxrrset = 7
rcode_value nxrrset = 8
rcode_value notauth = 9
rcode_value notzone = 10

-- `enum class rr_class : std::uint16_t`
abbrev pub class_internet : ℕ
class_internet = 1

-- `enum class rr_type : std::uint16_t`, the types that the code tests for.
abbrev pub type_a : ℕ
type_a = 1

abbrev pub type_txt : ℕ
type_txt = 16

abbrev pub type_aaaa : ℕ
type_aaaa = 28

abbrev pub type_opt : ℕ
type_opt = 41

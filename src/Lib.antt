-- ===== src/Lib.antt =====
-- cdns: a DNS proxy with a cache, filters and DNSCrypt. This library models the messages, the cache, the
-- waiting requests, the choice of answers, the certificates and the encryption, and proves what makes them correct.
--
-- The parts and how they interact. A message arrives in a packet (network/packet.hxx). The responder
-- reads its question (dns/srcz/query.cpp), asks the filter (dns/srcz/filter.cpp) and the cache
-- (dns/srcz/cache.cpp) and the file of hosts (dns/srcz/hosts.cpp), and otherwise passes it on to a server; the server's answer is stored in the cache. Messages to DNSCrypt servers are
-- padded and encrypted, with keys from certificates that arrive as text records.
--
-- Prelude: Boolean tests on numbers, byte strings, lists, byte memory, and results of code that
-- throws, with a constructor of Error for each throw that is modelled.
--
-- Sys/Ascii (sys/srcz/str.cpp): ascii_tolower, ascii_tolower_copy and ascii_strcasecmp.
--
-- Network/Packet (network/packet.hxx, network/srcz/packet.cpp): a packet is its size, the size of its
-- vector and a memory. Network/Requests (network/srcz/listener.cpp, dns/srcz/responder.cpp): the
-- clean-up loop over the waiting requests, which both files have.
--
-- Network/Address (network/srcz/address.cpp): addresses and their texts; inet_pton and inet_ntop of the
-- system are arguments. Sys/Text has strtol and to_string of the standard library.
--
-- Network/Connection (network/srcz/connection.cpp): messages on a TCP connection; what the system sends
-- and receives is an argument. Network/Upstream (network/srcz/upstream.cpp, network/srcz/timeout.cpp): a
-- request to a server; what the socket does at each callback is an argument. An exception that is no
-- net_error leaves a callback, and is given beside the state.
-- Network/Incoming (network/srcz/incoming.cpp, network/srcz/listener.cpp): the requests of clients, from
-- their arrival to the response.
--
-- Dns/Header, Dns/Name, Dns/Record, Dns/Question, Dns/Ttl, Dns/Answer (dns/srcz/query.cpp,
-- dns/message_header.hxx, dns/constants.hxx): the operations of class query under their own names. A
-- function that moves an offset which it is given by reference returns the new offset.
--
-- Dns/Cache (dns/srcz/cache.cpp, dns/cache.hxx): the hash set is a list of entries without a key twice;
-- the result of std::time is an argument. Dns/Cache/File: the bytes that save_as writes and load reads,
-- on a machine with 64-bit sizes and the lowest byte first.
--
-- Dns/Hosts (dns/srcz/hosts.cpp): the file of hosts.
--
-- Dns/Responder (dns/responder.hxx, dns/srcz/responder.cpp): pre_filter, process, store, the choice of a
-- server and pass_answer_downstream, each from a responder to the next one and to what becomes of the
-- request. The value of rand, and whether a request to a server can be made, are arguments.
-- Dns/Responder/Load: from_file, reload and the constructor from parameters, with what the files hold as an
-- argument, and the exception that leaves reload beside the responder it leaves behind.
--
-- Dns/WordSets, Dns/Filter (dns/srcz/filter.cpp, dns/filter.hxx): the sorted sets are lists in their order,
-- with the word, or the reversed word, as the key; the hash sets are lists without an element twice.
--
-- Dns/Crypt/Padding (dns/crypt/srcz/pad_buffer.cpp, dns/crypt/message_header.hxx): pad_buffer and
-- find_end. Dns/Crypt/Certificate (dns/crypt/srcz/certificate.cpp, dns/crypt/srcz/certifier.cpp):
-- certificates, their order and the choice among them. The functions of libsodium are arguments.
-- Dns/Crypt/Client (dns/crypt/srcz/encryptor.cpp) and Dns/Crypt/Server (dns/crypt/srcz/server_crypt.cpp):
-- the encryption of messages at the two ends; Dns/Crypt/Box has the functions of libsodium that they
-- call, with what is documented of them, and Dns/Crypt/Channel the keys that belong together.
-- Dns/Crypt/Certifier (dns/crypt/srcz/certifier.cpp): the requests for certificates; what the timer and
-- the network do is an argument. Dns/Crypt/Csv (dns/crypt/srcz/csv.cpp): the lines of the list of resolvers.
-- Dns/Crypt/Keys (crypt/crypt.cpp): keys as texts. Dns/Crypt/Resolvers (dns/crypt/srcz/resolver.cpp): the
-- list of DNSCrypt servers. Dns/Crypt/Cresponder (dns/crypt/srcz/cresponder.cpp): the responder that asks
-- DNSCrypt servers and serves clients that encrypt. Which class a message has decides in the source whether
-- its answer is encrypted; here a message comes with a session or with none.
--
-- Bounds and fuel. The loop over the labels of a name takes the size of the message and one as fuel,
-- since each label moves the offset on; the loop that loads a filter takes one more than the length
-- of the text, since each round takes a character at least, and so do the loops that load the file of
-- hosts, the file of the cache, the list of resolvers and the list of servers; the clean-up loop takes
-- the size of the vector, since each round moves the index on. Numbers of 16 and 32 bits wrap around where the
-- source's types do. Reads behind the end of a vector are undefined in the source and give some byte
-- in the model. Assertions, which a release build drops, are not checked.
--
-- Not modelled: sockets, timers, log output, option parsing, stack traces and the texts for
-- the log, which are calls of the system or for a reader, where Dns/Info says what making a text of a
-- reply throws; and so far the file of ready DNSCrypt servers and
-- the start of the requests for certificates at a reload.
pub mod Prelude
pub mod Sys
pub mod Network
pub mod Dns
pub mod Tests

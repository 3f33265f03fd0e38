-- ===== src/Tests/Samples.antt =====
-- Messages, a library of DNS functions and a storage, to run the definitions on.
use redis_dns.Prelude.{ℕ, [], ◌∷◌, Option, none, some}
use redis_dns.Prelude.Bytes.{Bytes}
use redis_dns.Net.{Ip}
use redis_dns.Dns.{Msg, Question, DnsLib}
use redis_dns.Dns.RecordData.{a}
use redis_dns.Resolver.Pref.{PrefEntry, PrefBackend, found, absent}

abbrev pub ip1 : Ip
ip1 = 10 ∷ 0 ∷ 0 ∷ 1 ∷ []

abbrev pub ip2 : Ip
ip2 = 10 ∷ 0 ∷ 0 ∷ 2 ∷ []

abbrev pub name : Bytes
name = b'a' ∷ b'.' ∷ []

abbrev pub question : Question
question = record { name = name; qtype = 1 }

abbrev pub two_ips : Msg
two_ips = record {
  id = 7;
  rcode = 0;
  question = question ∷ [];
  answer =
      record { owner = name; ttl = 60; rdata = a ip1 }
      ∷ record { owner = name; ttl = 30; rdata = a ip2 }
      ∷ [];
  ns = [];
  extra = [];
}

-- The same message with no TTL to go by.
abbrev pub zero_ttl : Msg
zero_ttl = record two_ips { answer = record { owner = name; ttl = 0; rdata = a ip1 } ∷ [] }

abbrev pub query : Msg
query = record two_ips { id = 9; answer = [] }

abbrev read_type : Bytes → Option ℕ
read_type [] = none
read_type (c ∷ cs) = some 1

abbrev pub lib : DnsLib
lib = record {
  fqdn = λ n. n;
  type_string = λ t. b'A' ∷ [];
  string_to_type = read_type;
  pack = λ m. some (1 ∷ []);
  unpack = λ w. some two_ips;
  set_reply = λ m. m;
  set_question = λ n t. query;
}

-- A storage with room for one entry.
abbrev loaded : Option PrefEntry → redis_dns.Resolver.Pref.Loaded
loaded none = absent
loaded (some e) = found e

abbrev pub shelf : PrefBackend (Option PrefEntry)
shelf = record {
  load_pref = λ s key. loaded s;
  store_pref = λ s key e ttl. some e;
  bump_pref = λ s key. s;
}

-- ===== src/Dns.antt =====
-- DNS messages as the program reads them: the fields of `dns.Msg` and of the record types that
-- internal/resolver and the two services look into, the numbers assigned to types and response
-- codes, and the operations of the DNS library, which is not part of the repository.
use redis_dns.Prelude.{ℕ, List, Option}
use redis_dns.Prelude.Bytes.{Bytes}
use redis_dns.Net.{Ip}

-- What a record carries beside its header. `soa` has the Minttl and the rest of its data.
pub data RecordData : Type 0 where
  a : Ip → RecordData
  aaaa : Ip → RecordData
  soa : ℕ → Bytes → RecordData
  other : ℕ → Bytes → RecordData

-- `ttl` is the `Ttl` of the header, a uint32.
pub record Record : Type 0 where
  pub owner : Bytes
  pub ttl : ℕ
  pub rdata : RecordData

pub record Question : Type 0 where
  pub name : Bytes
  pub qtype : ℕ

pub record Msg : Type 0 where
  pub id : ℕ
  pub rcode : ℕ
  pub question : List Question
  pub answer : List Record
  pub ns : List Record
  pub extra : List Record

abbrev pub type_a : ℕ
type_a = 1

abbrev pub type_aaaa : ℕ
type_aaaa = 28

abbrev pub rcode_success : ℕ
rcode_success = 0

abbrev pub rcode_format_error : ℕ
rcode_format_error = 1

abbrev pub rcode_server_failure : ℕ
rcode_server_failure = 2

abbrev pub rcode_name_error : ℕ
rcode_name_error = 3

-- The DNS library's functions that the program calls on messages and names. `none` is an error.
pub record DnsLib : Type 0 where
  pub fqdn : Bytes → Bytes
  pub type_string : ℕ → Bytes
  pub string_to_type : Bytes → Option ℕ
  pub pack : Msg → Option Bytes
  pub unpack : Bytes → Option Msg
  pub set_reply : Msg → Msg
  pub set_question : Bytes → ℕ → Msg

-- ===== src/Proto.antt =====
-- internal/proto/proto.go: the payloads that cross Redis, and their JSON form, which is a parameter.
use redis_dns.Prelude.{ℕ, ◌≡◌, some, Option}
use redis_dns.Prelude.Bytes.{Bytes}
use redis_dns.Prelude.Int.{ℤ}

pub record Request : Type 0 where
  pub id : Bytes
  pub name : Bytes
  pub qtype : ℕ

pub record Response : Type 0 where
  pub id : Bytes
  pub name : Bytes
  pub qtype : ℕ
  pub rcode : ℕ
  pub resolved_at : ℤ
  pub wire : Bytes
  pub err : Bytes

pub record Update : Type 0 where
  pub name : Bytes
  pub qtype : ℕ
  pub rcode : ℕ
  pub resolved_at : ℤ
  pub wire : Bytes

-- `json.Marshal` and `json.Unmarshal` at one type; `none` is an error.
pub record Json (A : Type 0) : Type 0 where
  pub marshal : A → Bytes
  pub unmarshal : Bytes → Option A

-- What is marshalled unmarshals to the same value.
pub record IsFaithful {A : Type 0} (json : Json A) : Type 0 where
  pub reads_back : (x : A) → json.unmarshal (json.marshal x) ≡ some x

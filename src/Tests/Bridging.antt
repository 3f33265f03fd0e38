-- ===== src/Tests/Bridging.antt =====
-- The two services together, with payloads that read back what was written in place of JSON.
use redis_dns.Prelude.{
  ℕ, zero, suc, ◌≡◌, refl, ap, [], ◌∷◌, ◌++◌, Option, none, some, arith, length, take, drop, All,
}
use redis_dns.Prelude.Bytes.{Bytes, ascii}
use redis_dns.Prelude.Int.{ℤ, pos, negsuc}
use redis_dns.Dns.{Msg}
use redis_dns.Server.{Server}
use redis_dns.Server.Handle.{Resolved, answered}
use redis_dns.Bridge.{Bridge, Reply, Reach, init, steps_of}
use redis_dns.Bridge.Origin.{Genuine}
use redis_dns.Bridge.Genuineness.{Reach-Genuine}
use redis_dns.Bridge.Progress.{cold_query_is_answered}
use redis_dns.Tests.Samples.{name, lib, two_ips}
use redis_dns.Proto.{Request, Response, Update, Json, IsFaithful}

record Codec (A : Type 0) : Type 0 where
  write : A → Bytes → Bytes
  read : Bytes → Option (A × Bytes)
  reads : (x : A) (rest : Bytes) → read (write x rest) ≡ some (x, rest)

abbrev read_number : Bytes → Option (ℕ × Bytes)
read_number [] = none
read_number (n ∷ rest) = some (n, rest)

abbrev number : Codec ℕ
number = record { write = λ n rest. n ∷ rest; read = read_number; reads = λ n rest. refl }

take-append : (x y : Bytes) → take (length x) (x ++ y) ≡ x
take-append [] y = refl
take-append (c ∷ x) y = ap (λ (z : Bytes). c ∷ z) (take-append x y)

drop-append : (x y : Bytes) → drop (length x) (x ++ y) ≡ y
drop-append [] y = refl
drop-append (c ∷ x) y = drop-append x y

abbrev read_text : Bytes → Option (Bytes × Bytes)
read_text [] = none
read_text (n ∷ rest) = some (take n rest, drop n rest)

text-reads : (x rest : Bytes) → read_text (length x ∷ x ++ rest) ≡ some (x, rest)
text-reads x rest = rw (take-append x rest, drop-append x rest)

abbrev text : Codec Bytes
text = record { write = λ x rest. length x ∷ x ++ rest; read = read_text; reads = text-reads }

abbrev write_integer : ℤ → Bytes → Bytes
write_integer (pos n) rest = 0 ∷ n ∷ rest
write_integer (negsuc n) rest = 1 ∷ n ∷ rest

abbrev read_integer : Bytes → Option (ℤ × Bytes)
read_integer [] = none
read_integer (sign ∷ []) = none
read_integer (zero ∷ n ∷ rest) = some (pos n, rest)
read_integer (suc k ∷ n ∷ rest) = some (negsuc n, rest)

integer-reads : (a : ℤ) (rest : Bytes) → read_integer (write_integer a rest) ≡ some (a, rest)
integer-reads (pos n) rest = refl
integer-reads (negsuc n) rest = refl

abbrev integer : Codec ℤ
integer = record { write = write_integer; read = read_integer; reads = integer-reads }

module _ {A B : Type 0} (a : Codec A) (b : Codec B) where
  abbrev read_pair : Bytes → Option ((A × B) × Bytes)
  read_pair bs = elim (a.read bs) [
    | none ↦ none
    | some (x, rest) ↦ elim (b.read rest) [ none ↦ none | some (y, rest') ↦ some ((x, y), rest') ]
  ]

  abbrev write_pair : A × B → Bytes → Bytes
  write_pair p rest = a.write p.0 (b.write p.1 rest)

  pair-reads : (p : A × B) (rest : Bytes) → read_pair (write_pair p rest) ≡ some (p, rest)
  pair-reads p rest = ground (arith, a.reads p.0 (b.write p.1 rest), b.reads p.1 rest)

  abbrev pair : Codec (A × B)
  pair = record { write = write_pair; read = read_pair; reads = pair-reads }

-- A payload is a record's fields as nested pairs.
module _ {A B : Type 0} (c : Codec B) (fields : A → B) (of : B → A) where
  abbrev read_all : Bytes → Option A
  read_all bs = elim (c.read bs) [ none ↦ none | some (y, rest) ↦ some (of y) ]

  abbrev json : Json A
  json = record { marshal = λ x. c.write (fields x) []; unmarshal = read_all }

  read_back : (x : A) → of (fields x) ≡ x → json.unmarshal (json.marshal x) ≡ some x
  read_back x back = ground (arith, c.reads (fields x) [], back)

  json-IsFaithful : ((x : A) → of (fields x) ≡ x) → IsFaithful json
  json-IsFaithful back = record { reads_back = λ x. read_back x (back x) }

-- The three payloads.
abbrev request_code : Codec (Bytes × (Bytes × ℕ))
request_code = pair text (pair text number)

abbrev requests : Json Request
requests =
    json request_code (λ r. (r.id, (r.name, r.qtype)))
      (λ y. record { id = y.0; name = y.1.0; qtype = y.1.1 })

requests-IsFaithful : IsFaithful requests
requests-IsFaithful = json-IsFaithful request_code _ _ (λ x. refl)

abbrev response_code : Codec ((Bytes × (Bytes × ℕ)) × ((ℕ × ℤ) × (Bytes × Bytes)))
response_code = pair (pair text (pair text number)) (pair (pair number integer) (pair text text))

abbrev responses : Json Response
responses =
    json response_code
      (λ r. ((r.id, (r.name, r.qtype)), ((r.rcode, r.resolved_at), (r.wire, r.err))))
      (λ y. record {
        id = y.0.0;
        name = y.0.1.0;
        qtype = y.0.1.1;
        rcode = y.1.0.0;
        resolved_at = y.1.0.1;
        wire = y.1.1.0;
        err = y.1.1.1;
      })

responses-IsFaithful : IsFaithful responses
responses-IsFaithful = json-IsFaithful response_code _ _ (λ x. refl)

abbrev update_code : Codec ((Bytes × ℕ) × ((ℕ × ℤ) × Bytes))
update_code = pair (pair text number) (pair (pair number integer) text)

abbrev updates : Json Update
updates =
    json update_code (λ u. ((u.name, u.qtype), ((u.rcode, u.resolved_at), u.wire)))
      (λ y. record {
        name = y.0.0;
        qtype = y.0.1;
        rcode = y.1.0.0;
        resolved_at = y.1.0.1;
        wire = y.1.1;
      })

updates-IsFaithful : IsFaithful updates
updates-IsFaithful = json-IsFaithful update_code _ _ (λ x. refl)

-- The upstream side has one answer.
abbrev Gives : Bytes → ℕ → Msg → Type 0
Gives n t m = m ≡ two_ips

abbrev upstream : Bytes → ℕ → Resolved
upstream n t = answered two_ips

honest : (n : Bytes) (t : ℕ) (x : Msg) → upstream n t ≡ answered x → Gives n t x
honest n t x h = cc

abbrev server : Server
server = record {
  group = ascii "dns";
  consumer = ascii "resolver";
  cache_ttl = pos 300000000000;
  neg_ttl = pos 60000000000;
  resp_max = pos 1000;
  workers = pos 1;
  prefetch = pos 60000000000;
  top_n = pos 50;
  half_life = pos 86400000000000;
}

abbrev Answers : Bytes → Type 0
Answers wire =
    (t : Bridge) × (run : Reach lib requests responses updates (pos 300000000000) Gives init t)
    × (steps_of lib requests responses updates (pos 300000000000) Gives run ≡ 6)
    × (t.replies ≡ record { name = name; qtype = 1; wire = wire } ∷ [])

cold_query_is_answered_example : Answers (1 ∷ [])
cold_query_is_answered_example =
    cold_query_is_answered lib Gives requests responses updates requests-IsFaithful
      responses-IsFaithful (pos 300000000000) init server upstream (pos 5) (ascii "r1") name 1
      two_ips (1 ∷ []) refl honest refl refl refl

-- A run in which a query is answered.
answered_run : Answers (1 ∷ [])
answered_run =
    cold_query_is_answered lib Gives requests responses updates requests-IsFaithful
      responses-IsFaithful (pos 300000000000) init server upstream (pos 8) (ascii "r2") name 1
      two_ips (1 ∷ []) refl honest refl refl refl

Reach-Genuine_example :
    All (λ (r : Reply). Genuine lib Gives r.name r.qtype r.wire) answered_run.0.replies
Reach-Genuine_example =
    Reach-Genuine lib Gives requests responses updates requests-IsFaithful responses-IsFaithful
      updates-IsFaithful (pos 300000000000) answered_run.1

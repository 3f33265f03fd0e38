-- ===== src/Server/Handle.antt =====
-- internal/server/server.go: `handle` for one message of the request stream, with `cache` and
-- `publish`. What the server sends to Redis is a row of commands; what Redis, the clock, the
-- upstream and the library's errors say is the scene.
pub mod Caching
pub mod Answering
pub mod Responding
use redis_dns.Prelude.{
  ℕ, ◌*◌, Bool, true, false, not, List, [], ◌∷◌, ◌++◌, Option, none, some, if◌then◌else◌, ltb, ◌==◌,
  ◌&&◌,
}
use redis_dns.Prelude.Bytes.{Bytes}
use redis_dns.Prelude.Int.{ℤ, pos, nonpos, ltb_ℤ}
use redis_dns.Net.{is_nil}
use redis_dns.Dns.{Msg, DnsLib, rcode_name_error}
use redis_dns.Proto.{Request, Response, Update, Json}
use redis_dns.Redisx.{cache_key}
use redis_dns.Resolver.Ttl.{min_ttl}
use redis_dns.Server.{Server}
use redis_dns.Server.Stats.{count_member, count_query}

abbrev pub second : ℕ
second = 1000000000

-- `respond` is the XADD to the response stream, `store` is SET with a lifetime.
pub data Command : Type 0 where
  store : Bytes → Bytes → ℤ → Command
  publish : Bytes → Command
  respond : Bytes → Command
  ack : Bytes → Command

-- What `Resolve` returns: a message, or the text of an error.
pub data Resolved : Type 0 where
  answered : Msg → Resolved
  failed : Bytes → Resolved

-- `cached` is GET, with `none` for an error or a missing key; `now` is the clock when the answer
-- is stamped.
pub record Scene : Type 0 where
  pub cached : Bytes → Option Bytes
  pub upstream : Bytes → ℕ → Resolved
  pub pack_error : Msg → Bytes
  pub now : ℤ

-- The TTL of `cache`, before it sends: the ceiling by the RCODE, cut to the least record TTL.
unfoldable pub cache_ceiling : Server → Msg → ℤ
cache_ceiling s answer = if answer.rcode == rcode_name_error then s.neg_ttl else s.cache_ttl

unfoldable pub cache_life : ℤ → ℕ → ℤ
cache_life ceiling min =
    if nonpos ceiling
    then pos 0
    else if ltb 0 min && ltb_ℤ (pos (min * second)) ceiling
    then pos (min * second)
    else ceiling

unfoldable pub cache : Server → Bytes → ℕ → Bytes → Msg → ℤ × List Command
cache s name qtype wire answer =
    let ttl = cache_life (cache_ceiling s answer) (min_ttl answer) in
    (
      ttl,
      if nonpos (cache_ceiling s answer) then [] else store (cache_key name qtype) wire ttl ∷ [],
    )

-- The response before its answer is filled in.
abbrev pub blank : Request → Response
blank req = record {
  id = req.id;
  name = req.name;
  qtype = req.qtype;
  rcode = 0;
  resolved_at = pos 0;
  wire = [];
  err = [];
}

-- `err == nil && len(wire) > 0`
abbrev pub usable : Option Bytes → Option Bytes
usable none = none
usable (some w) = if is_nil w then none else some w

-- `resp.Rcode` of a cached wire: it stays 0 where the wire does not unpack.
abbrev pub rcode_of : Option Msg → ℕ
rcode_of none = 0
rcode_of (some m) = m.rcode

module _ (lib : DnsLib) (requests : Json Request) (responses : Json Response)
    (updates : Json Update) where
  open lib use {pack, unpack}

  -- `publish`
  unfoldable pub announce : Bytes → ℕ → Bytes → Msg → ℤ → List Command
  announce name qtype wire answer resolved_at =
      publish (
        updates.marshal (record {
          name = name;
          qtype = qtype;
          rcode = answer.rcode;
          resolved_at = resolved_at;
          wire = wire;
        }))
      ∷ []

  abbrev send : Response → Command
  send resp = respond (responses.marshal resp)

  unfoldable pub answer_cached : Scene → Request → Bytes → List Command
  answer_cached scene req wire =
      send (record (blank req) {
        rcode = rcode_of (unpack wire);
        resolved_at = scene.now;
        wire = wire;
      })
      ∷ []

  unfoldable pub answer_fresh : Server → Scene → Request → Msg → List Command
  answer_fresh s scene req answer = elim (pack answer) [
    | none ↦ send (record (blank req) { err = scene.pack_error answer }) ∷ []
    | some wire ↦
        (cache s req.name req.qtype wire answer).1
        ++ (announce req.name req.qtype wire answer scene.now
            ++ send
                (record (blank req) { rcode = answer.rcode; resolved_at = scene.now; wire = wire })
              ∷ [])
  ]

  unfoldable pub answer_upstream : Server → Scene → Request → List Command
  answer_upstream s scene req = elim (scene.upstream req.name req.qtype) [
    | failed e ↦ send (record (blank req) { err = e }) ∷ []
    | answered m ↦ answer_fresh s scene req m
  ]

  unfoldable pub answer_request : Server → Scene → Request → List Command
  answer_request s scene req = elim (usable (scene.cached (cache_key req.name req.qtype))) [
    | some wire ↦ answer_cached scene req wire
    | none ↦ answer_upstream s scene req
  ]

  -- `handle`: the queue of the counter, and the commands. The field `data` may be missing.
  unfoldable pub handle : Server → Scene → List Bytes → Option Bytes → List Bytes × List Command
  handle s scene queue none = (queue, [])
  handle s scene queue (some payload) = elim (requests.unmarshal payload) [
    | none ↦ (queue, [])
    | some req ↦
        (count_query (count_member lib req.name req.qtype) queue, answer_request s scene req)
  ]

  -- The goroutine that `worker` starts for a message: it acknowledges in any case.
  unfoldable pub process :
      Server → Scene → List Bytes → Bytes → Option Bytes → List Bytes × List Command
  process s scene queue id field =
      let (queue', sent) = handle s scene queue field in (queue', sent ++ ack id ∷ [])

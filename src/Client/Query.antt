-- ===== src/Client/Query.antt =====
-- internal/client/client.go: `resolveQuery`, and its two frontends `handle` (with `reply`) and
-- `dohHandler`. The outcome of the coalesced resolution, which the client waits for, is a
-- parameter; `resolve_query` says what was asked. No other goroutine writes the cache meanwhile.
pub mod Cases
pub mod Frontends
use redis_dns.Prelude.{ℕ, Bool, List, [], ◌∷◌, Option, none, some, if◌then◌else◌, take}
use redis_dns.Prelude.Bytes.{Bytes, bytes_eq, to_lower, ascii}
use redis_dns.Prelude.Int.{ℤ}
use redis_dns.Net.{is_nil}
use redis_dns.Dns.{Msg, Question, DnsLib, rcode_success, rcode_format_error, rcode_server_failure}
use redis_dns.Proto.{Response}
use redis_dns.Redisx.{cache_key}
use redis_dns.Client.Local.{Local, local_get, local_set}

-- The answer and the RCODE that `resolveQuery` returns, the cache that it leaves, and the name and
-- type that it asked the server for, if it did.
pub record Result : Type 0 where
  pub local : Local
  pub wire : Bytes
  pub rcode : ℕ
  pub asked : Option (Bytes × ℕ)

-- What the clock and the server say to one query: when it starts, when the answer is stored, and
-- the answer, with `none` for an error.
pub record Scene : Type 0 where
  pub start : ℤ
  pub stored : ℤ
  pub answer : Bytes → ℕ → Option Response

-- An HTTP request, with its query parameter `dns` and its body as they were sent.
pub data HttpRequest : Type 0 where
  http_get : Bytes → HttpRequest
  http_post : Bytes → Option Bytes → HttpRequest
  http_other : HttpRequest

pub data HttpReply : Type 0 where
  status : ℕ → HttpReply
  message : Bytes → HttpReply

module _ (lib : DnsLib) (local_ttl : ℤ) where
  open lib use {fqdn, unpack, pack, set_reply}

  unfoldable pub query_name : Question → Bytes
  query_name q = to_lower (fqdn q.name)

  unfoldable pub query_key : Question → Bytes
  query_key q = cache_key (query_name q) q.qtype

  -- Step 2: nothing usable in the local cache `m`.
  unfoldable pub ask_server : Scene → Local → Question → Result
  ask_server scene m q = elim (scene.answer (query_name q) q.qtype) [
    | none ↦ record {
      local = m;
      wire = [];
      rcode = rcode_server_failure;
      asked = some (query_name q, q.qtype);
    }
    | some resp ↦ record {
      local = local_set unpack local_ttl m scene.stored (query_key q) resp.wire resp.resolved_at;
      wire = resp.wire;
      rcode = rcode_success;
      asked = some (query_name q, q.qtype);
    }
  ]

  unfoldable pub answer_question : Scene → Local → Question → Result
  answer_question scene m q =
      let (m', hit) = local_get m scene.start (query_key q) in
      elim hit [
        | some wire ↦ record { local = m'; wire = wire; rcode = rcode_success; asked = none }
        | none ↦ ask_server scene m' q
      ]

  abbrev refuse : Local → Result
  refuse m = record { local = m; wire = []; rcode = rcode_format_error; asked = none }

  unfoldable pub dispatch_questions : Scene → Local → List Question → Result
  dispatch_questions scene m [] = refuse m
  dispatch_questions scene m (q ∷ []) = answer_question scene m q
  dispatch_questions scene m (q ∷ q' ∷ qs) = refuse m

  unfoldable pub resolve_query : Scene → Local → Msg → Result
  unfolding dispatch_questions
  resolve_query scene m r = dispatch_questions scene m r.question

  -- A reply with no answer.
  unfoldable pub error_reply : Msg → ℕ → Msg
  error_reply r rcode = record (set_reply r) { rcode = rcode }

  unfoldable pub reply : Msg → Bytes → Msg
  reply r wire = elim (unpack wire) [
    | none ↦ error_reply r rcode_server_failure
    | some m ↦ record m { id = r.id }
  ]

  -- `handle`: the message that it writes, and the cache.
  unfoldable pub handle : Scene → Local → Msg → Msg × Local
  handle scene m r =
      let res = resolve_query scene m r in
      (if is_nil res.wire then error_reply r res.rcode else reply r res.wire, res.local)

  -- The end of `dohHandler`, from the query on.
  unfoldable pub doh_answer : Scene → Local → Msg → HttpReply × Local
  doh_answer scene m msg =
      let res = resolve_query scene m msg in
      (
        message (
            if is_nil res.wire
            then elim (pack (error_reply msg res.rcode)) [ some w ↦ w | none ↦ [] ]
            else res.wire),
        res.local,
      )

  unfoldable pub doh_unpack : Scene → Local → Option Bytes → HttpReply × Local
  doh_unpack scene m none = (status 400, m)
  doh_unpack scene m (some b) = elim (unpack b) [
    | none ↦ (status 400, m)
    | some msg ↦ doh_answer scene m msg
  ]

  -- `decode` is `base64.RawURLEncoding.DecodeString`. A body that fails to be read is `none`.
  unfoldable pub doh_handler :
      (Bytes → Option Bytes) → Scene → Local → HttpRequest → HttpReply × Local
  doh_handler decode scene m (http_get dns) = doh_unpack scene m (decode dns)
  doh_handler decode scene m (http_post content_type body) =
      if bytes_eq content_type (ascii "application/dns-message")
      then doh_unpack scene m (elim body [ none ↦ none | some b ↦ some (take 65536 b) ])
      else (status 415, m)
  doh_handler decode scene m http_other = (status 405, m)

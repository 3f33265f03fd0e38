-- ===== src/Server/Handle/Answering.antt =====
-- internal/server/server.go: the three ways in which a request is answered.
use redis_dns.Prelude.{◌≡◌, refl, ◌∙◌, ◌⊎◌, inl, inr, List, [], ◌∷◌, ◌++◌, none, some, Option-cases}
use redis_dns.Prelude.Bytes.{Bytes}
use redis_dns.Dns.{Msg, DnsLib}
use redis_dns.Proto.{Request, Response, Update, Json}
use redis_dns.Redisx.{cache_key}
use redis_dns.Server.{Server}
use redis_dns.Server.Handle.{
  Command, publish, respond, Resolved, answered, failed, Scene, cache, announce, answer_cached,
  answer_fresh, answer_upstream, usable, rcode_of, answer_request, blank,
}

upstream_cases : (r : Resolved) → ((m : Msg) × (r ≡ answered m)) ⊎ ((e : Bytes) × (r ≡ failed e))
upstream_cases (answered m) = inl (m, refl)
upstream_cases (failed e) = inr (e, refl)

module _ (lib : DnsLib) (requests : Json Request) (responses : Json Response)
    (updates : Json Update) where
  open lib use {pack, unpack}

  by_hit :
      (s : Server) (scene : Scene) (req : Request) (wire : Bytes)
      → usable (scene.cached (cache_key req.name req.qtype)) ≡ some wire
      → answer_request lib requests responses updates s scene req
        ≡ answer_cached lib requests responses updates scene req wire
  unfolding answer_request
  by_hit s scene req wire h = rw (h, answer_request)

  pub by_miss :
      (s : Server) (scene : Scene) (req : Request)
      → usable (scene.cached (cache_key req.name req.qtype)) ≡ none
      → answer_request lib requests responses updates s scene req
        ≡ answer_upstream lib requests responses updates s scene req
  unfolding answer_request
  by_miss s scene req h = rw (h, answer_request)

  by_failure :
      (s : Server) (scene : Scene) (req : Request) (e : Bytes)
      → scene.upstream req.name req.qtype ≡ failed e
      → answer_upstream lib requests responses updates s scene req
        ≡ respond (responses.marshal (record (blank req) { err = e })) ∷ []
  unfolding answer_upstream
  by_failure s scene req e h = rw (h, answer_upstream)

  pub by_answer :
      (s : Server) (scene : Scene) (req : Request) (m : Msg)
      → scene.upstream req.name req.qtype ≡ answered m
      → answer_upstream lib requests responses updates s scene req
        ≡ answer_fresh lib requests responses updates s scene req m
  unfolding answer_upstream
  by_answer s scene req m h = rw (h, answer_upstream)

  by_unpackable :
      (s : Server) (scene : Scene) (req : Request) (m : Msg)
      → pack m ≡ none
      → answer_fresh lib requests responses updates s scene req m
        ≡ respond (responses.marshal (record (blank req) { err = scene.pack_error m })) ∷ []
  unfolding answer_fresh
  by_unpackable s scene req m h = rw (h, answer_fresh)

  pub by_wire :
      (s : Server) (scene : Scene) (req : Request) (m : Msg) (wire : Bytes)
      → pack m ≡ some wire
      → answer_fresh lib requests responses updates s scene req m
        ≡ (cache s req.name req.qtype wire m).1
          ++ (publish (
                updates.marshal (record {
                  name = req.name;
                  qtype = req.qtype;
                  rcode = m.rcode;
                  resolved_at = scene.now;
                  wire = wire;
                }))
              ∷ respond (
                  responses.marshal
                    (record (blank req) { rcode = m.rcode; resolved_at = scene.now; wire = wire }))
              ∷ [])
  unfolding answer_fresh announce
  by_wire s scene req m wire h = rw (h, answer_fresh)

  -- How a request is answered, by what the server has and gets.
  pub data Answered (s : Server) (scene : Scene) (req : Request) : List Command → Type 0 where
    from_cache :
        {sent : List Command} (wire : Bytes)
        → usable (scene.cached (cache_key req.name req.qtype)) ≡ some wire
        → sent
          ≡ respond (
              responses.marshal (record (blank req) {
                rcode = rcode_of (unpack wire);
                resolved_at = scene.now;
                wire = wire;
              }))
            ∷ []
        → Answered s scene req sent
    with_error :
        {sent : List Command} (err : Bytes)
        → usable (scene.cached (cache_key req.name req.qtype)) ≡ none
        → (scene.upstream req.name req.qtype ≡ failed err)
          ⊎ ((m : Msg) × (scene.upstream req.name req.qtype ≡ answered m)
              × (pack m ≡ none)
              × (err ≡ scene.pack_error m))
        → sent ≡ respond (responses.marshal (record (blank req) { err = err })) ∷ []
        → Answered s scene req sent
    fresh :
        {sent : List Command} (answer : Msg) (wire : Bytes)
        → usable (scene.cached (cache_key req.name req.qtype)) ≡ none
        → scene.upstream req.name req.qtype ≡ answered answer
        → pack answer ≡ some wire
        → sent
          ≡ (cache s req.name req.qtype wire answer).1
            ++ (publish (
                  updates.marshal (record {
                    name = req.name;
                    qtype = req.qtype;
                    rcode = answer.rcode;
                    resolved_at = scene.now;
                    wire = wire;
                  }))
                ∷ respond (
                    responses.marshal (record (blank req) {
                      rcode = answer.rcode;
                      resolved_at = scene.now;
                      wire = wire;
                    }))
                ∷ [])
        → Answered s scene req sent

  pub answer_request-Answered :
      (s : Server) (scene : Scene) (req : Request)
      → Answered s scene req (answer_request lib requests responses updates s scene req)
  answer_request-Answered s scene req =
      elim (Option-cases (usable (scene.cached (cache_key req.name req.qtype)))) [
        | inr (wire, hit) ↦
            from_cache wire hit (by_hit s scene req wire hit ∙ unfold answer_cached in refl)
        | inl miss ↦ elim (upstream_cases (scene.upstream req.name req.qtype)) [
          | inr (e, down) ↦
              with_error e miss (inl down)
                (by_miss s scene req miss ∙ by_failure s scene req e down)
          | inl (m, up) ↦
              let asked = by_miss s scene req miss ∙ by_answer s scene req m up in
              elim (Option-cases (pack m)) [
                | inl bad ↦
                    with_error (scene.pack_error m) miss (inr (m, up, bad, refl))
                      (asked ∙ by_unpackable s scene req m bad)
                | inr (wire, good) ↦
                    fresh m wire miss up good (asked ∙ by_wire s scene req m wire good)
              ]
        ]
      ]

-- ===== src/Server/Worker/Acks.antt =====
-- internal/server/server.go: every message that a worker is given is acknowledged.
use redis_dns.Prelude.{◌≡◌, refl, sym, ap, ◌∙◌, inl, inr, List, [], ◌∷◌, ◌++◌, Option, map}
use mathlib.Core.List.{Perm}
use mathlib.Core.List.Perm
use redis_dns.Prelude.Bytes.{Bytes}
use redis_dns.Dns.{DnsLib}
use redis_dns.Proto.{Request, Response, Update, Json}
use redis_dns.Server.{Server}
use redis_dns.Server.Handle.{Command, store, publish, respond, ack, Scene, process}
use redis_dns.Server.Handle.Responding.{acks_in, process-AnswersOnce}
use redis_dns.Server.Worker.{Message, Fetch, worker}
use redis_dns.Server.Worker.Backoff.{started_in, messages_of, worker-Works}

acks_in-append : (xs ys : List Command) → acks_in (xs ++ ys) ≡ acks_in xs ++ acks_in ys
unfolding acks_in
acks_in-append [] ys = refl
acks_in-append (store k w l ∷ xs) ys = acks_in-append xs ys
acks_in-append (publish p ∷ xs) ys = acks_in-append xs ys
acks_in-append (respond p ∷ xs) ys = acks_in-append xs ys
acks_in-append (ack id ∷ xs) ys = ap (λ (x : List Bytes). id ∷ x) (acks_in-append xs ys)

module _ (lib : DnsLib) (requests : Json Request) (responses : Json Response)
    (updates : Json Update) (s : Server) where
  -- The goroutines of the messages, in one order, each with what Redis and the upstream then say.
  unfoldable pub run_jobs : List Bytes → List (Message × Scene) → List Command
  run_jobs queue [] = []
  run_jobs queue ((m, scene) ∷ jobs) =
      let (queue', sent) = process lib requests responses updates s scene queue m.id m.payload in
      sent ++ run_jobs queue' jobs

  process_acks :
      (scene : Scene) (queue : List Bytes) (id : Bytes) (field : Option Bytes)
      → acks_in (process lib requests responses updates s scene queue id field).1 ≡ id ∷ []
  process_acks scene queue id field =
      elim (process-AnswersOnce lib requests responses updates s scene queue id field) [
        | inl (_, e) ↦ rw e (unfold acks_in in refl)
        | inr (_, _, _, _, _, (_, _, acked, _, _, _)) ↦ acked
      ]

  run_jobs_acks :
      (queue : List Bytes) (jobs : List (Message × Scene))
      → acks_in (run_jobs queue jobs) ≡ map (λ m. m.id) (map (λ j. j.0) jobs)
  unfolding run_jobs
  run_jobs_acks queue [] = unfold acks_in in refl
  run_jobs_acks queue ((m, scene) ∷ jobs) =
      let now = process lib requests responses updates s scene queue m.id m.payload in
      acks_in-append now.1 (run_jobs now.0 jobs)
      ∙ ap (λ (x : List Bytes). x ++ acks_in (run_jobs now.0 jobs))
          (process_acks scene queue m.id m.payload)
      ∙ ap (λ (x : List Bytes). m.id ∷ x) (run_jobs_acks now.0 jobs)

  -- In whatever order the goroutines run that a worker starts, and whatever Redis and the upstream
  -- answer them, what they acknowledge is the messages that the worker was given, each exactly
  -- once.
  pub worker_acks_all :
      (fs : List Fetch) (queue : List Bytes) (jobs : List (Message × Scene))
      → Perm (map (λ j. j.0) jobs) (started_in (worker fs))
      → Perm (acks_in (run_jobs queue jobs)) (map (λ m. m.id) (messages_of fs))
  worker_acks_all fs queue jobs order =
      let (_, given, _) = worker-Works fs in
      rw (run_jobs_acks queue jobs) (Perm.map (λ m. m.id) (rw (sym given) order))

-- ===== src/Client/Streams/Warming.antt =====
-- internal/client/client.go: what `runSubscriber` does to the local cache.
use redis_dns.Prelude.{
  ◌≡◌, refl, ap, ◌∙◌, inl, inr, false, List, [], ◌∷◌, Option, All, All-append, ◌++◌, Bool-cases,
  Option-cases,
}
use redis_dns.Prelude.Bytes.{Bytes}
use redis_dns.Prelude.Int.{ℤ}
use redis_dns.Net.{is_nil}
use redis_dns.Dns.{Msg}
use redis_dns.Proto.{Update, Json}
use redis_dns.Redisx.{cache_key}
use redis_dns.Client.Local.{Local, Op, get, evict, set, swap, apply, run}
use redis_dns.Client.Streams.{Notice, message, lost, over, warm, run_subscriber}

-- A write of what an update says, at a time, under the key of its name and type.
abbrev pub IsUpdate : Op → Type 0
IsUpdate (get now key) = ⊥
IsUpdate (evict key) = ⊥
IsUpdate (set now key wire resolved_at) =
    (upd : Update) × (key ≡ cache_key upd.name upd.qtype)
    × (wire ≡ upd.wire)
    × (resolved_at ≡ upd.resolved_at)
    × (is_nil upd.wire ≡ false)
IsUpdate swap = ⊥

module _ (updates : Json Update) (unpack : Bytes → Option Msg) (local_ttl : ℤ) where
  -- The operations that one message makes.
  abbrev Writes : Local → Local → Type 0
  Writes m m' = (ops : List Op) × (m' ≡ run unpack local_ttl m ops) × All IsUpdate ops

  warm-Writes :
      (m : Local) (now : ℤ) (payload : Bytes)
      → Writes m (warm updates unpack local_ttl m now payload)
  unfolding warm run apply
  warm-Writes m now payload = elim (Option-cases (updates.unmarshal payload)) [
    | inl bad ↦ ([], rw (bad, warm) refl, tt)
    | inr (upd, good) ↦ elim (Bool-cases (is_nil upd.wire)) [
      | inl blank ↦ ([], rw (good, warm) (rw blank refl), tt)
      | inr full ↦ (
        set now (cache_key upd.name upd.qtype) upd.wire upd.resolved_at ∷ [],
        rw (good, warm) (rw full refl),
        ((upd, refl, refl, refl, full), tt),
      )
    ]
  ]

  run-append :
      (m : Local) (xs ys : List Op)
      → run unpack local_ttl (run unpack local_ttl m xs) ys ≡ run unpack local_ttl m (xs ++ ys)
  unfolding run
  run-append m [] ys = refl
  run-append m (x ∷ xs) ys = run-append (apply unpack local_ttl m x) xs ys

  -- However messages, lost connections and the end of the context follow on each other, all that
  -- the subscriber does to the cache is a run of its write operation, each under the key and with
  -- the wire and the version of an update that has one.
  pub run_subscriber-Writes :
      (m : Local) (ns : List Notice) → Writes m (run_subscriber updates unpack local_ttl m ns)
  unfolding run_subscriber
  run_subscriber-Writes m [] = ([], unfold run in refl, tt)
  run_subscriber-Writes m (message now payload ∷ ns) =
      let now_on = warm updates unpack local_ttl m now payload in
      let (ops, is, written) = warm-Writes m now payload in
      let (more, goes, rest) = run_subscriber-Writes now_on ns in
      (
        ops ++ more,
        goes ∙ ap (λ x. run unpack local_ttl x more) is ∙ run-append m ops more,
        All-append IsUpdate ops more written rest,
      )
  run_subscriber-Writes m (lost ∷ ns) = run_subscriber-Writes m ns
  run_subscriber-Writes m (over ∷ ns) = ([], unfold run in refl, tt)

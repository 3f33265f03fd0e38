-- ===== src/Client/Query/Cases.antt =====
-- internal/client/client.go: what `resolveQuery` does with one query, and with the same query again.
use redis_dns.Prelude.{
  ◌≡◌, ◌∙◌, ◌⊎◌, sym, subst, ap, inl, inr, false, List, [], ◌∷◌, Option, none, some, arith, All,
  Bool-cases,
}
use redis_dns.Prelude.Bytes.{Bytes, bytes_eq, bytes_eq-eq, bytes_eq_refl}
use redis_dns.Prelude.Int.{ℤ, ◌≤ℤ◌, ◌<ℤ◌, ◌+ℤ◌}
use redis_dns.Dns.{Msg, Question, DnsLib, rcode_success}
use redis_dns.Proto.{Response}
use redis_dns.Client.Local.{
  Local, LocalEntry, Op, get, evict, set, swap, local_get, local_set, lifetime, apply, run,
}
use redis_dns.Client.Local.Freshness.{written, local_get-Looks}
use redis_dns.Client.Local.Versions.{local_set_cases}
use redis_dns.Client.Query.{
  Result, Scene, query_name, query_key, ask_server, answer_question, dispatch_questions,
  resolve_query,
}

module _ (lib : DnsLib) (local_ttl : ℤ) where
  open lib use {unpack}

  -- After a miss the key is not in the cache: it was absent, or had expired and is gone.
  miss_leaves_none :
      (m : Local) (now : ℤ) (key : Bytes)
      → (local_get m now key).1 ≡ none
      → (local_get m now key).0 key ≡ none
  miss_leaves_none m now key h = elim (local_get-Looks m now key) [
    | inl (absent, e) ↦ rw e absent
    | inr (inl (_, _, _, e)) ↦ rw (e, bytes_eq_refl key)
    | inr (inr (entry, _, _, e)) ↦ absurd (ground arith)
  ]

  -- So a write after a miss is never dropped.
  set_after_miss :
      (m : Local) (t : ℤ) (key wire : Bytes) (v : ℤ)
      → m key ≡ none
      → local_set unpack local_ttl m t key wire v key ≡ some (written unpack local_ttl t wire v)
  set_after_miss m t key wire v h = elim (local_set_cases unpack local_ttl m t key wire v) [
    | inl (e, hit, _, _) ↦ absurd (ground arith)
    | inr (_, put) ↦ rw (put, bytes_eq_refl key)
  ]

  hit_of_young :
      (m : Local) (now : ℤ) (key : Bytes) (e : LocalEntry)
      → m key ≡ some e
      → now ≤ℤ e.expire
      → local_get m now key ≡ (m, some e.wire)
  hit_of_young m now key e at young = elim (local_get-Looks m now key) [
    | inl (absent, _) ↦ absurd (ground arith)
    | inr (inl (old, at', late, _)) ↦ absurd (ground arith)
    | inr (inr (e', at', _, r)) ↦ ground arith
  ]

  -- The operation leaves that entry under the key: it is about another key, or looks the entry up
  -- before it expires, or writes an answer that is older.
  abbrev pub Leaves : Bytes → LocalEntry → Op → Type 0
  Leaves key e (get t k) = (bytes_eq key k ≡ false) ⊎ (t ≤ℤ e.expire)
  Leaves key e (evict k) = bytes_eq key k ≡ false
  Leaves key e (set t k wire v) = (bytes_eq key k ≡ false) ⊎ (v <ℤ e.resolved_at)
  Leaves key e swap = ⊥

  local_get-Leaves :
      (m : Local) (t : ℤ) (k key : Bytes) (e : LocalEntry)
      → m key ≡ some e
      → (bytes_eq key k ≡ false) ⊎ (t ≤ℤ e.expire)
      → (local_get m t k).0 key ≡ some e
  local_get-Leaves m t k key e at leaves = elim (local_get-Looks m t k) [
    | inl (_, same) ↦ rw same at
    | inr (inr (_, _, _, same)) ↦ rw same at
    | inr (inl (old, there, late, gone)) ↦ elim (Bool-cases (bytes_eq key k)) [
      | inr other ↦ rw gone (rw other at)
      | inl is ↦ elim leaves [
        | inl other ↦ absurd (cc)
        | inr young ↦
            let own : m key ≡ some old =
              subst (λ j. m j ≡ some old) (sym (bytes_eq-eq key k is)) there in
            let same : old ≡ e = let x = sym own ∙ at in cc in
            let too_late : e.expire <ℤ t = subst (λ (x : LocalEntry). x.expire <ℤ t) same late in
            absurd (ground arith)
      ]
    ]
  ]

  local_set-Leaves :
      (m : Local) (t : ℤ) (k key wire : Bytes) (v : ℤ) (e : LocalEntry)
      → m key ≡ some e
      → (bytes_eq key k ≡ false) ⊎ (v <ℤ e.resolved_at)
      → local_set unpack local_ttl m t k wire v key ≡ some e
  local_set-Leaves m t k key wire v e at leaves =
      elim (local_set_cases unpack local_ttl m t k wire v) [
        | inl (_, _, _, same) ↦ rw same at
        | inr (newest, put) ↦ elim (Bool-cases (bytes_eq key k)) [
          | inr other ↦ rw put (rw other at)
          | inl is ↦ elim leaves [
            | inl other ↦ absurd (cc)
            | inr older ↦
                let own : m k ≡ some e = subst (λ j. m j ≡ some e) (bytes_eq-eq key k is) at in
                let newer = newest e own in absurd (ground arith)
          ]
        ]
      ]

  apply-Leaves :
      (m : Local) (key : Bytes) (e : LocalEntry) (o : Op)
      → m key ≡ some e
      → Leaves key e o
      → apply unpack local_ttl m o key ≡ some e
  unfolding apply
  apply-Leaves m key e (get t k) at leaves = local_get-Leaves m t k key e at leaves
  apply-Leaves m key e (evict k) at leaves = rw leaves at
  apply-Leaves m key e (set t k wire v) at leaves = local_set-Leaves m t k key wire v e at leaves
  apply-Leaves m key e swap at leaves = elim leaves [ ]

  run-Leaves :
      (m : Local) (key : Bytes) (e : LocalEntry) (os : List Op)
      → m key ≡ some e
      → All (Leaves key e) os
      → run unpack local_ttl m os key ≡ some e
  unfolding run
  run-Leaves m key e [] at leave = at
  run-Leaves m key e (o ∷ os) at leave =
      run-Leaves (apply unpack local_ttl m o) key e os (apply-Leaves m key e o at leave.0) leave.1

  ask_server_answered :
      (scene : Scene) (m : Local) (q : Question) (resp : Response)
      → scene.answer (query_name lib local_ttl q) q.qtype ≡ some resp
      → ask_server lib local_ttl scene m q ≡ record {
        local =
            local_set unpack local_ttl m scene.stored
              (query_key lib local_ttl q)
              resp.wire
              resp.resolved_at;
        wire = resp.wire;
        rcode = rcode_success;
        asked = some (query_name lib local_ttl q, q.qtype);
      }
  unfolding ask_server
  ask_server_answered scene m q resp h = rw (h, ask_server)

  answer_miss :
      (scene : Scene) (m : Local) (q : Question)
      → (local_get m scene.start (query_key lib local_ttl q)).1 ≡ none
      → answer_question lib local_ttl scene m q
        ≡ ask_server lib local_ttl scene (local_get m scene.start (query_key lib local_ttl q)).0 q
  unfolding answer_question
  answer_miss scene m q h = rw (h, answer_question)

  answer_hit :
      (scene : Scene) (m m' : Local) (q : Question) (wire : Bytes)
      → local_get m scene.start (query_key lib local_ttl q) ≡ (m', some wire)
      → answer_question lib local_ttl scene m q
        ≡ record { local = m'; wire = wire; rcode = rcode_success; asked = none }
  unfolding answer_question
  answer_hit scene m m' q wire h =
      let same = ap (λ (x : Local × Option Bytes). x.0) h in
      let hit = ap (λ (x : Local × Option Bytes). x.1) h in rw (hit, answer_question) (rw same)

  one_question :
      (scene : Scene) (m : Local) (r : Msg) (q : Question)
      → r.question ≡ q ∷ []
      → resolve_query lib local_ttl scene m r ≡ answer_question lib local_ttl scene m q
  unfolding resolve_query
  one_question scene m r q h = rw (h, dispatch_questions)

  -- A query that misses the local cache and is answered by the server is not sent to the server a
  -- second time: asked again while the lifetime of the answer lasts, it is answered from the local
  -- cache with the same wire, and the cache stays as it is. In between come any lookups, evictions
  -- and writes that leave the entry: those about other keys, lookups before it expires and writes
  -- that are older; the backend is not swapped.
  pub answered_once :
      (first again : Scene) (m : Local) (r : Msg) (q : Question) (resp : Response) (os : List Op)
      → r.question ≡ q ∷ []
      → (local_get m first.start (query_key lib local_ttl q)).1 ≡ none
      → first.answer (query_name lib local_ttl q) q.qtype ≡ some resp
      → again.start ≤ℤ first.stored +ℤ lifetime unpack local_ttl resp.wire
      → All
          (Leaves
            (query_key lib local_ttl q)
            (written unpack local_ttl first.stored resp.wire resp.resolved_at))
          os
      → let res = resolve_query lib local_ttl first m r in
        let after = run unpack local_ttl res.local os in
        (res.asked ≡ some (query_name lib local_ttl q, q.qtype))
        × (res.wire ≡ resp.wire)
        × (resolve_query lib local_ttl again after r
            ≡ record { local = after; wire = resp.wire; rcode = rcode_success; asked = none })
  answered_once first again m r q resp os single miss answer young leave =
      let key = query_key lib local_ttl q in
      let m' = (local_get m first.start key).0 in
      let after = local_set unpack local_ttl m' first.stored key resp.wire resp.resolved_at in
      let e1 =
        one_question first m r q single
        ∙ answer_miss first m q miss
        ∙ ask_server_answered first m' q resp answer in
      let stored =
        set_after_miss m' first.stored key resp.wire resp.resolved_at
          (miss_leaves_none m first.start key miss) in
      let later = run unpack local_ttl after os in
      let kept = run-Leaves after key _ os stored leave in
      let e2 =
        one_question again later r q single
        ∙ answer_hit again later later q resp.wire
            (hit_of_young later again.start key _ kept young) in
      (ap (λ (x : Result). x.asked) e1, ap (λ (x : Result). x.wire) e1, rw e1 e2)

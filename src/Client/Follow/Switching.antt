-- ===== src/Client/Follow/Switching.antt =====
-- internal/client/follow.go: which backend is in use, and what the cache then holds.
use redis_dns.Prelude.{
  ◌≡◌, refl, ap, ◌∙◌, ◌⊎◌, inl, inr, subst, true, false, List, [], ◌∷◌, ◌++◌, Option, some, arith,
  Any, Bool-cases, Option-cases,
}
use redis_dns.Prelude.Bytes.{Bytes, bytes_eq, empty}
use redis_dns.Prelude.Int.{ℤ}
use redis_dns.Dns.{Msg}
use redis_dns.Config.{FollowBackend, Follow}
use redis_dns.Client.Local.{Op, apply, run}
use redis_dns.Client.Follow.{
  Poll, Follower, lookup, node_of, swap_redis, follow_backend, follow_step, Moment, polled, served,
  follow_moment, run_follow,
}

-- What happened to the cache.
abbrev pub ops_of : List Moment → List Op
ops_of [] = []
ops_of (polled poll ∷ ms) = ops_of ms
ops_of (served op ∷ ms) = op ∷ ops_of ms

module _ (unpack : Bytes → Option Msg) (local_ttl : ℤ) (cfg : Follow) where
  -- The backend is one of the configuration, at the address that the loop takes for current.
  pub record IsListed (f : Follower) (be : FollowBackend) : Type 0 where
    pub in_use : f.backend ≡ some be
    pub at_current : f.current ≡ be.addr
    pub listed : Any (λ entry. entry.1 ≡ be) cfg.backends

  -- A poll at which that backend was the one named, and answered.
  abbrev pub Answered : FollowBackend → Moment → Type 0
  Answered be (polled poll) =
      (poll.answers be ≡ true) × (lookup (node_of poll cfg.group) cfg.backends ≡ some be)
  Answered be (served op) = ⊥

  -- Nothing was swapped, or the backend in use is one that answered, and the cache has seen
  -- nothing but what happened since.
  abbrev pub Follows : Follower → List Moment → Follower → Type 0
  Follows start ms f =
      ((f.backend ≡ start.backend)
        × (f.current ≡ start.current)
        × (f.local ≡ run unpack local_ttl start.local (ops_of ms)))
      ⊎ ((be : FollowBackend) × (earlier : List Moment) × (later : List Moment) × (ms
            ≡ earlier ++ later)
          × IsListed f be
          × Any (Answered be) earlier
          × (f.local ≡ run unpack local_ttl empty (ops_of later)))

  lookup-listed :
      (node : Bytes) (bs : List (Bytes × FollowBackend)) (be : FollowBackend)
      → lookup node bs ≡ some be
      → Any (λ entry. entry.1 ≡ be) bs
  unfolding lookup
  lookup-listed node [] be h = absurd (cc)
  lookup-listed node ((name, b) ∷ bs) be h = elim (Bool-cases (bytes_eq name node)) [
    | inl here ↦ inl (ground arith)
    | inr later ↦ inr (lookup-listed node bs be (ground arith))
  ]

  -- A poll leaves all as it is, or swaps to the backend that it names, which answers and is
  -- another than the current one, and clears the cache.
  abbrev pub Swapped : Poll → Follower → Follower → Type 0
  Swapped poll f f' =
      (f' ≡ f)
      ⊎ ((be : FollowBackend) × (lookup (node_of poll cfg.group) cfg.backends ≡ some be)
          × (bytes_eq be.addr f.current ≡ false)
          × (poll.answers be ≡ true)
          × (f' ≡ record { current = be.addr; backend = some be; local = empty }))

  follow_step-Swapped : (f : Follower) (poll : Poll) → Swapped poll f (follow_step cfg f poll)
  follow_step-Swapped f poll = elim (Option-cases (lookup (node_of poll cfg.group) cfg.backends)) [
    | inl unknown ↦ inl (unfold follow_step in rw (unknown, follow_step))
    | inr (be, known) ↦ elim (Bool-cases (bytes_eq be.addr f.current)) [
      | inl same ↦ inl (unfold follow_step follow_backend in ground (arith, known, same))
      | inr other ↦ elim (Bool-cases (poll.answers be)) [
        | inr down ↦ inl (unfold follow_step follow_backend in ground (arith, known, other, down))
        | inl up ↦ inr (
          be,
          known,
          other,
          up,
          unfold follow_step follow_backend swap_redis in ground (arith, known, other, up),
        )
      ]
    ]
  ]

  -- A moment before what is known to follow.
  Follows-keep :
      (f f' : Follower) (poll : Poll) (ms : List Moment)
      → Follows f ms f'
      → Follows f (polled poll ∷ ms) f'
  Follows-keep f f' poll ms (inl h) = inl h
  Follows-keep f f' poll ms (inr (be, earlier, later, e, listed, answered, local)) =
      inr
        (be, polled poll ∷ earlier, later, ap (λ x. polled poll ∷ x) e, listed, inr answered, local)

  Follows-swap :
      (f' : Follower) (poll : Poll) (ms : List Moment) (be : FollowBackend)
      → lookup (node_of poll cfg.group) cfg.backends ≡ some be
      → poll.answers be ≡ true
      → Follows (record { current = be.addr; backend = some be; local = empty }) ms f'
      → (f : Follower) → Follows f (polled poll ∷ ms) f'
  Follows-swap f' poll ms be known up (inl (b, c, l)) f = inr (
    be,
    polled poll ∷ [],
    ms,
    refl,
    record {
      in_use = b;
      at_current = c;
      listed = lookup-listed (node_of poll cfg.group) cfg.backends be known;
    },
    inl (up, known),
    l,
  )
  Follows-swap f' poll ms be known up (inr (be', earlier, later, e, listed, answered, local)) f =
      inr (
        be',
        polled poll ∷ earlier,
        later,
        ap (λ x. polled poll ∷ x) e,
        listed,
        inr answered,
        local,
      )

  Follows-serve :
      (f f' : Follower) (op : Op) (ms : List Moment)
      → Follows (record f { local = apply unpack local_ttl f.local op }) ms f'
      → Follows f (served op ∷ ms) f'
  Follows-serve f f' op ms (inl (b, c, l)) = inl (b, c, l ∙ unfold run in refl)
  Follows-serve f f' op ms (inr (be, earlier, later, e, listed, answered, local)) =
      inr (be, served op ∷ earlier, later, ap (λ x. served op ∷ x) e, listed, inr answered, local)

  -- After any polls, with any lookups and writes in between, either nothing was swapped, or the
  -- client uses a backend of the configuration that answered a ping at a poll that named it, its
  -- address is the current one, and its cache holds nothing from before the swap: it is what the
  -- operations since then make of an empty one.
  pub run_follow-Follows :
      (f : Follower) (ms : List Moment) → Follows f ms (run_follow unpack local_ttl cfg f ms)
  unfolding run_follow follow_moment
  run_follow-Follows f [] = inl (refl, refl, unfold run in refl)
  run_follow-Follows f (served op ∷ ms) =
      Follows-serve f _ op ms
        (run_follow-Follows (record f { local = apply unpack local_ttl f.local op }) ms)
  run_follow-Follows f (polled poll ∷ ms) =
      let f1 = follow_step cfg f poll in
      let rest = run_follow-Follows f1 ms in
      let f' = run_follow unpack local_ttl cfg f1 ms in
      elim (follow_step-Swapped f poll) [
        | inl same ↦ Follows-keep f f' poll ms (subst (λ x. Follows x ms f') same rest)
        | inr (be, known, _, up, swapped) ↦
            Follows-swap f' poll ms be known up (subst (λ x. Follows x ms f') swapped rest) f
      ]

-- ===== src/Bridge/Genuineness.antt =====
-- Whatever the client answers is an answer that the upstream side gave to the very name and type.
use redis_dns.Prelude.{ℕ, sym, ap, ◌∙◌, subst, inl, inr, Option, arith, All, All-append}
use redis_dns.Prelude.Bytes.{Bytes}
use redis_dns.Prelude.Int.{ℤ}
use redis_dns.Dns.{Msg, DnsLib}
use redis_dns.Proto.{Request, Response, Update, Json, IsFaithful}
use redis_dns.Redisx.{cache_key}
use redis_dns.Client.Local.{Local}
use redis_dns.Client.Local.Freshness.{AllEntries, local_get-AllEntries}
use redis_dns.Bridge.{
  Bridge, Reply, Step, ask, serve, prefetch, deliver, finish, keep, tell, Returned, give_up, hit,
  forget, warmed, Reach, init, here, next,
}
use redis_dns.Bridge.Origin.{Genuine}
use redis_dns.Bridge.Serving.{process-Sound, sweep-Sound}
use redis_dns.Bridge.Invariant.{found_in, IsAsked, Holds, supplied, local_set-Holds}
use redis_dns.Bridge.Steps.{
  Good, unregister-Waiting, dispatch-Waiting, ask-Good, delivered-IsOwn, answered-Genuine,
  hit-Genuine, warm-Holds,
}

module _ (lib : DnsLib) (Gives : Bytes → ℕ → Msg → Type 0) (requests : Json Request)
    (responses : Json Response) (updates : Json Update) (asks : IsFaithful requests)
    (law : IsFaithful responses) (law' : IsFaithful updates) (local_ttl : ℤ) where
  open lib use {unpack}

  abbrev IsGood : Bridge → Type 0
  IsGood = Good lib Gives requests responses updates asks law law' local_ttl

  abbrev pub Runs : Bridge → Type 0
  Runs t = Reach lib requests responses updates local_ttl Gives init t

  Step-IsGood :
      {s t : Bridge} → Step lib requests responses updates local_ttl Gives s t → IsGood s → IsGood t
  Step-IsGood {s} (ask id name qtype new) g =
      ask-Good lib Gives requests responses updates asks law law' local_ttl s id name qtype new g
  Step-IsGood {s} (serve server scene queue id payload sent_before honest) g =
      let asked_for =
        found_in (IsAsked lib Gives requests responses updates asks law law' local_ttl s.opened)
          payload s.requested g.asked sent_before in
      let supply =
        supplied lib Gives requests responses updates asks law law' local_ttl s scene.upstream
          scene.cached g honest in
      record {
        asked = g.asked;
        sound =
            All-append _ _ s.commands
              (process-Sound lib Gives requests responses updates law law' s.opened server scene
                queue id payload supply asked_for)
              g.sound;
        waiting = g.waiting;
        held = g.held;
        came = g.came;
        kept = g.kept;
        told = g.told;
      }
  Step-IsGood {s} (prefetch server sweep plans honest) g = record {
    asked = g.asked;
    sound =
        All-append _ _ s.commands
          (sweep-Sound lib Gives requests responses updates law law' s.opened server sweep
            honest.resolves plans)
          g.sound;
    waiting = g.waiting;
    held = g.held;
    came = g.came;
    kept = g.kept;
    told = g.told;
  }
  Step-IsGood {s} (deliver payload resp waits' before read sends) g = record {
    asked = g.asked;
    sound = g.sound;
    waiting =
        dispatch-Waiting lib Gives requests responses updates asks law law' local_ttl s.opened
          s.waits waits' resp sends
          (delivered-IsOwn lib Gives requests responses updates asks law law' local_ttl s payload
            resp g before read)
          g.waiting;
    held = g.held;
    came = g.came;
    kept = g.kept;
    told = g.told;
  }
  Step-IsGood {s} (finish id name qtype resp r at waits got) g = record {
    asked = g.asked;
    sound = g.sound;
    waiting =
        unregister-Waiting lib Gives requests responses updates asks law law' local_ttl s.opened
          s.waits id g.waiting;
    held = g.held;
    came = (
      answered-Genuine lib Gives requests responses updates asks law law' local_ttl s id name qtype
          resp r g at waits got,
      g.came,
    );
    kept = g.kept;
    told = g.told;
  }
  Step-IsGood {s} (keep a now returned) g =
      let answer =
        found_in (λ (x : Returned). Genuine lib Gives x.name x.qtype x.response.wire) a s.returned
          g.came returned in
      record {
        asked = g.asked;
        sound = g.sound;
        waiting = g.waiting;
        held =
            local_set-Holds lib Gives requests responses updates asks law law' local_ttl s.local now
              a.name a.qtype a.response.wire a.response.resolved_at g.held answer;
        came = g.came;
        kept = (answer, g.kept);
        told = g.told;
      }
  Step-IsGood {s} (tell a stored) g = record {
    asked = g.asked;
    sound = g.sound;
    waiting = g.waiting;
    held = g.held;
    came = g.came;
    kept = g.kept;
    told = (
      found_in (λ (x : Returned). Genuine lib Gives x.name x.qtype x.response.wire) a s.stored
          g.kept stored,
      g.told,
    );
  }
  Step-IsGood {s} (give_up id) g = record {
    asked = g.asked;
    sound = g.sound;
    waiting =
        unregister-Waiting lib Gives requests responses updates asks law law' local_ttl s.opened
          s.waits id g.waiting;
    held = g.held;
    came = g.came;
    kept = g.kept;
    told = g.told;
  }
  Step-IsGood {s} (hit now name qtype wire m found) g = record {
    asked = g.asked;
    sound = g.sound;
    waiting = g.waiting;
    held =
        subst (AllEntries (Holds lib Gives requests responses updates asks law law' local_ttl))
          (ap (λ (x : Local × Option Bytes). x.0) found)
          (local_get-AllEntries _ s.local now (cache_key name qtype) g.held);
    came = g.came;
    kept = g.kept;
    told = (
      hit-Genuine lib Gives requests responses updates asks law law' local_ttl s.local m now name
          qtype wire g.held found,
      g.told,
    );
  }
  Step-IsGood {s} (forget m left) g = record {
    asked = g.asked;
    sound = g.sound;
    waiting = g.waiting;
    held = λ k e at. elim (left k) [
      | inl gone ↦ absurd (ground arith)
      | inr same ↦ g.held k e (sym same ∙ at)
    ];
    came = g.came;
    kept = g.kept;
    told = g.told;
  }
  Step-IsGood {s} (warmed payload now before) g = record {
    asked = g.asked;
    sound = g.sound;
    waiting = g.waiting;
    held =
        warm-Holds lib Gives requests responses updates asks law law' local_ttl s payload now g
          before;
    came = g.came;
    kept = g.kept;
    told = g.told;
  }

  init-IsGood : IsGood init
  init-IsGood = record {
    asked = tt;
    sound = tt;
    waiting = λ id r e. absurd (ground arith);
    held = λ k e at. absurd (ground arith);
    came = tt;
    kept = tt;
    told = tt;
  }

  Reach-IsGood : {t : Bridge} → Runs t → IsGood t
  Reach-IsGood here = init-IsGood
  Reach-IsGood (next r step) = Step-IsGood step (Reach-IsGood r)

  -- However the two services and Redis interleave, every answer that the client gives is the packed
  -- form of a message that the upstream side gave for that very name and type: nothing is mixed
  -- up, neither on the streams, nor in the two caches, nor by pushes and prefetching. This needs
  -- that IDs are not used twice (a step of the client's) and that JSON reads back what it wrote.
  pub Reach-Genuine :
      {t : Bridge} → Runs t → All (λ (r : Reply). Genuine lib Gives r.name r.qtype r.wire) t.replies
  Reach-Genuine r = (Reach-IsGood r).told

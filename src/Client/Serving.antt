-- ===== src/Client/Serving.antt =====
-- internal/client/client.go: `ListenAndServe`, and `serveDoH` as far as it starts and stops. What
-- the listeners do in between are the handlers of Query.
use redis_dns.Prelude.{
  ◌≡◌, refl, List, [], ◌∷◌, ◌++◌, Option, none, some, if◌then◌else◌, All, Any, inl, inr, Bool-cases,
}
use redis_dns.Prelude.Bytes.{Bytes}
use redis_dns.Net.{is_nil}

-- What runs: the two readers of Redis, and listeners by their address.
data Part : Type 0 where
  dispatcher : Part
  subscriber : Part
  doh : Bytes → Part
  udp : Bytes → Part
  tcp : Bytes → Part

-- What its `select` receives: the error with which a listener ended, or the end of the context.
data Ending : Type 0 where
  listener_failed : Bytes → Ending
  cancelled : Ending

-- What was started, what was shut down, and the error that it returns.
record Served : Type 0 where
  started : List Part
  shut : List Part
  result : Option Bytes

abbrev starts : Bytes → Bytes → List Part
starts addr doh_addr =
    dispatcher
    ∷ subscriber
    ∷ ((if is_nil doh_addr then [] else doh doh_addr ∷ []) ++ udp addr ∷ tcp addr ∷ [])

-- The deferred close of `serveDoH` follows the context.
abbrev closes : Bytes → Ending → List Part
closes doh_addr (listener_failed err) = []
closes doh_addr cancelled = if is_nil doh_addr then [] else doh doh_addr ∷ []

abbrev error_of : Ending → Option Bytes
error_of (listener_failed err) = some err
error_of cancelled = none

listen_and_serve : Bytes → Bytes → Ending → Served
listen_and_serve addr doh_addr ending = record {
  started = starts addr doh_addr;
  shut = udp addr ∷ tcp addr ∷ closes doh_addr ending;
  result = error_of ending;
}

-- The readers of Redis stop by themselves once the context is over.
abbrev Stops : List Part → Part → Type 0
Stops shut dispatcher = Unit
Stops shut subscriber = Unit
Stops shut (doh a) = Any (λ p. p ≡ doh a) shut
Stops shut (udp a) = Any (λ p. p ≡ udp a) shut
Stops shut (tcp a) = Any (λ p. p ≡ tcp a) shut

-- When the context is over, nothing that was started is left running, and there is no error; when
-- a listener fails, its error is returned and both DNS listeners are shut down.
served-Stops :
    (addr doh_addr : Bytes)
    → ((listen_and_serve addr doh_addr cancelled).result ≡ none)
      × All
          (Stops (listen_and_serve addr doh_addr cancelled).shut)
          (listen_and_serve addr doh_addr cancelled).started
      × ((err : Bytes)
          → ((listen_and_serve addr doh_addr (listener_failed err)).result ≡ some err)
            × All
                (Stops (listen_and_serve addr doh_addr (listener_failed err)).shut)
                (udp addr ∷ tcp addr ∷ []))
unfolding listen_and_serve
served-Stops addr doh_addr = (
  refl,
  elim (Bool-cases (is_nil doh_addr)) [
    | inl off ↦ rw off (tt, (tt, (inl refl, (inr (inl refl), tt))))
    | inr on ↦ rw on (tt, (tt, (inr (inr (rw on (inl refl))), (inl refl, (inr (inl refl), tt)))))
  ],
  λ err. (refl, (inl refl, (inr (inl refl), tt))),
)

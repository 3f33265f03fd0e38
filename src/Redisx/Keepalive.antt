-- ===== src/Redisx/Keepalive.antt =====
-- internal/redisx/redisx.go: `StartKeepalive`. What one turn of the goroutine's loop meets is a beat.
use redis_dns.Prelude.{
  ℕ, suc, ◌≡◌, refl, ap, inl, inr, Bool, true, false, not, ◌&&◌, List, [], ◌∷◌, ◌++◌, Option, none,
  some, if◌then◌else◌, Bool-cases,
}
use redis_dns.Prelude.Bytes.{Bytes, ascii, contains}

-- The context ends, or the ticker ticks and the client is pinged: the text of the ping's error, if
-- it fails, and whether the context is over by then.
pub data Beat : Type 0 where
  over : Beat
  pinged : Option Bytes → Bool → Beat

-- Whether the goroutine returns after a ping.
unfoldable pub ends : Option Bytes → Bool → Bool
ends none ctx_over = false
ends (some e) ctx_over = not ctx_over && contains e (ascii "client is closed")

-- How often the client is pinged, and whether the goroutine has returned.
unfoldable pub keepalive : List Beat → ℕ × Bool
keepalive [] = (0, false)
keepalive (over ∷ bs) = (0, true)
keepalive (pinged result ctx_over ∷ bs) =
    let (n, returned) = keepalive bs in
    if ends result ctx_over then (1, true) else (suc n, returned)

-- Once its client is closed, as by a swap of the backend, the goroutine pings no more and returns,
-- whatever would come after.
closed_ends_keepalive :
    (before after : List Beat) (result : Option Bytes)
    → ends result false ≡ true
    → keepalive (before ++ pinged result false ∷ after)
      ≡ keepalive (before ++ pinged result false ∷ [])
unfolding keepalive
closed_ends_keepalive [] after result h = rw h refl
closed_ends_keepalive (over ∷ bs) after result h = refl
closed_ends_keepalive (pinged r o ∷ bs) after result h = elim (Bool-cases (ends r o)) [
  | inl now ↦ rw now refl
  | inr on ↦ rw on (ap (λ (p : ℕ × Bool). (suc p.0, p.1)) (closed_ends_keepalive bs after result h))
]

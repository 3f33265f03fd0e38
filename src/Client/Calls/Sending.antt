-- ===== src/Client/Calls/Sending.antt =====
-- internal/client/client.go: when a send of the dispatcher goes through.
use redis_dns.Prelude.{
  ◌⊎◌, ℕ, Bool, ◌≡◌, refl, none, inl, inr, sym, ap, subst, ◌∙◌, ◌==◌, some, arith, Any, Bool-cases,
  Option-cases, none_clash, ==_refl,
}
use redis_dns.Prelude.Bytes.{Bytes}
use redis_dns.Proto.{Response}
use redis_dns.Client.Pending.{accept}
use redis_dns.Client.Calls.{
  Stage, absent, waiting, leaving, over, sending, System, init, begin_call, confirm_call,
  receive_call, end_call, leave_call, look_up, send_to, Step, begin, confirm, receive, give_up,
  leave, route, send, Reach, here, next,
}
use redis_dns.Client.Calls.Owners.{Owned, init-Owned, Reach-Owned, id_of, emptied}

-- A response with that ID has been dispatched.
abbrev pub IsReturned : Bytes → System → Type 0
IsReturned id s = Any (λ x. x ≡ id) s.returned

abbrev Landed : System → Type 0
Landed s = (n : ℕ) (resp : Response) → s.chan n ≡ some resp → IsReturned resp.id s

Step-Landed : {s t : System} → Step s t → Landed s → Landed t
Step-Landed {s} (begin n id at) l = unfold begin_call in λ k r h. l k r (emptied s.chan n k r h)
Step-Landed (confirm n id at) l = unfold confirm_call in l
Step-Landed {s} (receive n id c resp at full) l =
    unfold receive_call in λ k r h. l k r (emptied s.chan n k r h)
Step-Landed (give_up n id c r at gives) l = unfold end_call in l
Step-Landed (leave n id r at) l = unfold leave_call in l
Step-Landed {s} (route resp idle) l =
    unfold look_up in
    elim (Option-cases (s.waits resp.id)) [
      | inl unknown ↦ rw (unknown, look_up) (λ k r h. inr (l k r h))
      | inr (n, known) ↦ rw (known, look_up) l
    ]
Step-Landed {s} (send n resp at room) l =
    unfold send_to in
    λ k r h. elim (Bool-cases (k == n)) [
      | inl is ↦ let r_is : resp ≡ r = ground arith in inl (ap (λ (x : Response). x.id) r_is)
      | inr other ↦ inr (l k r (ground arith))
    ]

Reach-Landed : {s t : System} → Reach s t → Landed s → Landed t
Reach-Landed here l = l
Reach-Landed (next r st) l = Step-Landed st (Reach-Landed r l)

room_for_first :
    {s : System} (n : ℕ) (resp : Response)
    → Reach init s
    → s.reader ≡ sending n resp
    → (IsReturned resp.id s → ⊥)
    → s.chan n ≡ none
room_for_first {s} n resp r at new = elim (Option-cases (s.chan n)) [
  | inl room ↦ room
  | inr (old, full) ↦
      let o : Owned s = Reach-Owned r init-Owned in
      let same : some old.id ≡ some resp.id = sym (o.held n old full) ∙ o.sent n resp at in
      let same_id : old.id ≡ resp.id = cc in
      let nothing_landed : Landed init = λ k x h. absurd (none_clash h) in
      absurd
        (new (subst (λ id. IsReturned id s) same_id (Reach-Landed r nothing_landed n old full)))
]

-- The call that the dispatcher sends to receives the response, and returns.
told_by :
    (s : System) (n : ℕ) (id : Bytes) (confirmed : Bool) (resp : Response)
    → s.calls n ≡ waiting id confirmed
    → (t : System) × Reach (send_to n resp s) t × (t.calls n ≡ over id (accept resp))
unfolding send_to receive_call leave_call
told_by s n id confirmed resp at =
    let s1 = send_to n resp s in
    let s2 = receive_call n id resp s1 in
    let full : s1.chan n ≡ some resp = rw (==_refl n) refl in
    let out : s2.calls n ≡ leaving id (accept resp) = rw (==_refl n) refl in
    (
      leave_call n id (accept resp) s2,
      next (next here (receive n id confirmed resp at full)) (leave n id (accept resp) out),
      rw (==_refl n) refl,
    )

-- A call that has its result.
abbrev pub IsGone : Stage → Type 0
IsGone absent = ⊥
IsGone (waiting id confirmed) = ⊥
IsGone (leaving id r) = Unit
IsGone (over id r) = Unit

-- Whoever is sent to has its result already, or can still receive.
settled_by :
    (s : System) (n : ℕ) (resp : Response) (stage : Stage)
    → s.calls n ≡ stage
    → id_of stage ≡ some resp.id
    → IsGone stage
      ⊎ ((t : System) × (id : Bytes) × Reach (send_to n resp s) t
          × (t.calls n ≡ over id (accept resp)))
settled_by s n resp absent at own = absurd (none_clash own)
settled_by s n resp (waiting id c) at own =
    let (t, run, told) = told_by s n id c resp at in inr (t, id, run, told)
settled_by s n resp (leaving id r) at own = inl tt
settled_by s n resp (over id r) at own = inl tt

-- The dispatcher is never held up by the first response for a request: whatever the calls do
-- meanwhile, the channel that it has looked up has room, and the send can be made at once. The call
-- of that channel has its result by then, or it can receive the response and return what `resolve`
-- makes of it.
pub first_response_is_sent :
    {s : System} (n : ℕ) (resp : Response)
    → Reach init s
    → s.reader ≡ sending n resp
    → (IsReturned resp.id s → ⊥)
    → Step s (send_to n resp s)
      × (IsGone (s.calls n)
          ⊎ ((t : System) × (id : Bytes) × Reach (send_to n resp s) t
              × (t.calls n ≡ over id (accept resp))))
first_response_is_sent {s} n resp r at new = (
  send n resp at (room_for_first n resp r at new),
  settled_by s n resp (s.calls n) refl ((Reach-Owned r init-Owned).sent n resp at),
)

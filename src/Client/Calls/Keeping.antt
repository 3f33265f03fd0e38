-- ===== src/Client/Calls/Keeping.antt =====
-- internal/client/client.go: a call keeps its ID.
use redis_dns.Prelude.{
  ℕ, true, false, ◌≡◌, inl, inr, refl, sym, ap, ◌∙◌, some, Option-cases, none_clash,
}
use redis_dns.Prelude.Bytes.{Bytes}
use redis_dns.Client.Pending.{accept}
use redis_dns.Client.Calls.{
  waiting, leaving, over, System, begin_call, confirm_call, receive_call, end_call, leave_call,
  look_up, send_to, Step, begin, confirm, receive, give_up, leave, route, send,
}
use redis_dns.Client.Calls.Owners.{id_of, update-id_of, same_id}

-- No step changes or removes an ID.
pub step_keeps_id :
    {s t : System}
    → Step s t
    → (k : ℕ) (x : Bytes) → id_of (s.calls k) ≡ some x
    → id_of (t.calls k) ≡ some x
step_keeps_id {s} (begin n id at) k x h =
    unfold begin_call in
    update-id_of s.calls n (waiting id false) (λ y g. absurd (none_clash (sym (ap id_of at) ∙ g))) k
      x h
step_keeps_id {s} (confirm n id at) k x h =
    unfold confirm_call in
    update-id_of s.calls n (waiting id true)
      (same_id s n (waiting id false) (waiting id true) at refl) k x h
step_keeps_id {s} (receive n id c resp at full) k x h =
    unfold receive_call in
    update-id_of s.calls n (leaving id (accept resp))
      (same_id s n (waiting id c) (leaving id (accept resp)) at refl) k x h
step_keeps_id {s} (give_up n id c r at gives) k x h =
    unfold end_call in
    update-id_of s.calls n (leaving id r) (same_id s n (waiting id c) (leaving id r) at refl) k x h
step_keeps_id {s} (leave n id r at) k x h =
    unfold leave_call in
    update-id_of s.calls n (over id r) (same_id s n (leaving id r) (over id r) at refl) k x h
step_keeps_id {s} (route resp idle) k x h =
    unfold look_up in
    elim (Option-cases (s.waits resp.id)) [
      | inl unknown ↦ rw (unknown, look_up) h
      | inr (n, known) ↦ rw (known, look_up) h
    ]
step_keeps_id (send n resp at room) k x h = unfold send_to in h

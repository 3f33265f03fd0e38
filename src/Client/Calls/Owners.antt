-- ===== src/Client/Calls/Owners.antt =====
-- internal/client/client.go: whose response a call of `resolve` gets.
use redis_dns.Prelude.{
  ℕ, Bool, true, false, ◌≡◌, ◌≢◌, inl, inr, refl, sym, ap, subst, ◌∙◌, ◌==◌, Option, none, some,
  arith, Bool-cases, Option-cases, ==_iff, ==_refl, none_clash,
}
use redis_dns.Prelude.Bytes.{Bytes, erase, bytes_eq, bytes_eq-eq}
use redis_dns.Proto.{Response}
use redis_dns.Client.Pending.{Resolved, answered, accept}
use redis_dns.Client.Pending.Waiting.{accept-answered}
use redis_dns.Client.Calls.{
  Stage, absent, waiting, leaving, over, sending, update, System, init, GivesUp, add_failed, timer,
  cancelled, begin_call, confirm_call, receive_call, end_call, leave_call, look_up, send_to, Step,
  begin, confirm, receive, give_up, leave, route, send, Reach, here, next,
}

abbrev pub id_of : Stage → Option Bytes
id_of absent = none
id_of (waiting id confirmed) = some id
id_of (leaving id r) = some id
id_of (over id r) = some id

-- The result of a call is an error or its own response.
abbrev pub IsOwn : Stage → Type 0
IsOwn absent = Unit
IsOwn (waiting id confirmed) = Unit
IsOwn (leaving id r) = (resp : Response) → r ≡ answered resp → resp.id ≡ id
IsOwn (over id r) = (resp : Response) → r ≡ answered resp → resp.id ≡ id

-- Who has a channel has the ID under which it is registered, and of what is on its way to it.
pub record Owned (s : System) : Type 0 where
  pub listed : (id : Bytes) (n : ℕ) → s.waits id ≡ some n → id_of (s.calls n) ≡ some id
  pub held : (n : ℕ) (resp : Response) → s.chan n ≡ some resp → id_of (s.calls n) ≡ some resp.id
  pub sent :
      (n : ℕ) (resp : Response) → s.reader ≡ sending n resp → id_of (s.calls n) ≡ some resp.id
  pub told : (n : ℕ) → IsOwn (s.calls n)

pub init-Owned : Owned init
init-Owned = record {
  listed = λ id n h. absurd (cc);
  held = λ n resp h. absurd (cc);
  sent = λ n resp h. absurd (cc);
  told = λ n. tt;
}

pub GivesUp-answered :
    {confirmed : Bool} {r : Resolved} (got : Response) → GivesUp confirmed r → r ≢ answered got
GivesUp-answered got (add_failed err) h = absurd (cc)
GivesUp-answered got (timer c) h = absurd (cc)
GivesUp-answered got (cancelled c) h = absurd (cc)

-- A call that moves on keeps its ID.
pub update-id_of :
    (calls : ℕ → Stage) (n : ℕ) (stage : Stage)
    → ((x : Bytes) → id_of (calls n) ≡ some x → id_of stage ≡ some x)
    → (k : ℕ) (x : Bytes) → id_of (calls k) ≡ some x
    → id_of (update calls n stage k) ≡ some x
update-id_of calls n stage keeps k x h = elim (Bool-cases (k == n)) [
  | inl is ↦
      let e : k ≡ n = ground (arith, ==_iff k n) in
      rw is (keeps x (subst (λ m. id_of (calls m) ≡ some x) e h))
  | inr other ↦ rw other h
]

pub same_id :
    (s : System) (n : ℕ) (stage stage' : Stage)
    → s.calls n ≡ stage
    → id_of stage ≡ id_of stage'
    → (x : Bytes) → id_of (s.calls n) ≡ some x
    → id_of stage' ≡ some x
same_id s n stage stage' at same x h = sym same ∙ ap id_of (sym at) ∙ h

update-IsOwn :
    (calls : ℕ → Stage) (n : ℕ) (stage : Stage)
    → IsOwn stage
    → ((k : ℕ) → IsOwn (calls k))
    → (k : ℕ) → IsOwn (update calls n stage k)
update-IsOwn calls n stage own h k = elim (Bool-cases (k == n)) [
  | inl is ↦ rw is own
  | inr other ↦ rw other (h k)
]

-- A step that changes one call, and neither registers nor sends.
moved-Owned :
    (s t : System) (n : ℕ) (stage : Stage)
    → Owned s
    → ((id : Bytes) (k : ℕ) → t.waits id ≡ some k → s.waits id ≡ some k)
    → ((k : ℕ) (resp : Response) → t.chan k ≡ some resp → s.chan k ≡ some resp)
    → t.reader ≡ s.reader
    → t.calls ≡ update s.calls n stage
    → ((x : Bytes) → id_of (s.calls n) ≡ some x → id_of stage ≡ some x)
    → IsOwn stage
    → Owned t
moved-Owned s t n stage o waits chan reader calls keeps own =
    let keep : (k : ℕ) (x : Bytes) → id_of (s.calls k) ≡ some x → id_of (t.calls k) ≡ some x =
      λ k x h.
        subst (λ f. id_of (f k) ≡ some x) (sym calls) (update-id_of s.calls n stage keeps k x h) in
    record {
      listed = λ id k h. keep k id (o.listed id k (waits id k h));
      held = λ k resp h. keep k resp.id (o.held k resp (chan k resp h));
      sent = λ k resp h. keep k resp.id (o.sent k resp (sym reader ∙ h));
      told = λ k. subst (λ f. IsOwn (f k)) (sym calls) (update-IsOwn s.calls n stage own o.told k);
    }

pub emptied :
    (chan : ℕ → Option Response) (n k : ℕ) (resp : Response)
    → update chan n none k ≡ some resp
    → chan k ≡ some resp
emptied chan n k resp h = ground arith

erased : (s : System) (id x : Bytes) (k : ℕ) → erase id s.waits x ≡ some k → s.waits x ≡ some k
erased s id x k h = ground arith

own_response :
    (s : System) (n : ℕ) (id : Bytes) (confirmed : Bool) (resp got : Response)
    → Owned s
    → s.calls n ≡ waiting id confirmed
    → s.chan n ≡ some resp
    → accept resp ≡ answered got
    → got.id ≡ id
own_response s n id confirmed resp got o at full e =
    let (is, _, _) = accept-answered resp got e in
    let owner : some resp.id ≡ some id = sym (o.held n resp full) ∙ ap id_of at in
    sym (ap (λ (r : Response). r.id) is) ∙ cc

begin_call-Owned :
    (s : System) (n : ℕ) (id : Bytes) → s.calls n ≡ absent → Owned s → Owned (begin_call n id s)
unfolding begin_call
begin_call-Owned s n id at o =
    let keep : (k : ℕ) (x : Bytes)
        → id_of (s.calls k) ≡ some x
        → id_of (update s.calls n (waiting id false) k) ≡ some x =
      update-id_of s.calls n (waiting id false)
        (λ x h. absurd (none_clash (sym (ap id_of at) ∙ h))) in
    record {
      listed = λ x k h. elim (Bool-cases (bytes_eq x id)) [
        | inl same ↦
            let k_is : n ≡ k = ground arith in
            subst (λ k'. id_of (update s.calls n (waiting id false) k') ≡ some x) k_is
              (rw (==_refl n) (ap some (sym (bytes_eq-eq x id same))))
        | inr other ↦ keep k x (o.listed x k (ground arith))
      ];
      held = λ k resp h. keep k resp.id (o.held k resp (emptied s.chan n k resp h));
      sent = λ k resp h. keep k resp.id (o.sent k resp h);
      told = update-IsOwn s.calls n (waiting id false) tt o.told;
    }

look_up-Owned : (s : System) (resp : Response) → Owned s → Owned (look_up resp s)
unfolding look_up
look_up-Owned s resp o = elim (Option-cases (s.waits resp.id)) [
  | inl unknown ↦
      rw (unknown, look_up)
        (record { listed = o.listed; held = o.held; sent = o.sent; told = o.told })
  | inr (n, known) ↦
      rw (known, look_up)
        (record {
          listed = o.listed;
          held = o.held;
          sent = λ k r h.
              let k_is : n ≡ k = cc in
              let r_is : resp ≡ r = cc in
              subst (λ k'. id_of (s.calls k') ≡ some r.id) k_is
                (subst (λ (r' : Response). id_of (s.calls n) ≡ some r'.id) r_is
                  (o.listed resp.id n known));
          told = o.told;
        })
]

send_to-Owned :
    (s : System) (n : ℕ) (resp : Response)
    → s.reader ≡ sending n resp
    → Owned s
    → Owned (send_to n resp s)
unfolding send_to
send_to-Owned s n resp at o = record {
  listed = o.listed;
  held = λ k r h. elim (Bool-cases (k == n)) [
    | inl is ↦
        let k_is : k ≡ n = ground (arith, ==_iff k n) in
        let r_is : resp ≡ r = ground arith in
        subst (λ k'. id_of (s.calls k') ≡ some r.id) (sym k_is)
          (subst (λ (r' : Response). id_of (s.calls n) ≡ some r'.id) r_is (o.sent n resp at))
    | inr other ↦ o.held k r (ground arith)
  ];
  sent = λ k r h. absurd (cc);
  told = o.told;
}

pub Step-Owned : {s t : System} → Step s t → Owned s → Owned t
Step-Owned {s} (begin n id at) o = begin_call-Owned s n id at o
Step-Owned {s} (confirm n id at) o =
    unfold confirm_call in
    moved-Owned s (confirm_call n id s) n (waiting id true) o (λ x k h. h) (λ k r h. h) refl refl
      (same_id s n (waiting id false) (waiting id true) at refl) tt
Step-Owned {s} (receive n id c resp at full) o =
    unfold receive_call in
    moved-Owned s (receive_call n id resp s) n (leaving id (accept resp)) o (λ x k h. h)
      (emptied s.chan n) refl refl (same_id s n (waiting id c) (leaving id (accept resp)) at refl)
      (λ got e. own_response s n id c resp got o at full e)
Step-Owned {s} (give_up n id c r at gives) o =
    unfold end_call in
    moved-Owned s (end_call n id r s) n (leaving id r) o (λ x k h. h) (λ k r h. h) refl refl
      (same_id s n (waiting id c) (leaving id r) at refl)
      (λ got e. absurd (GivesUp-answered got gives e))
Step-Owned {s} (leave n id r at) o =
    unfold leave_call in
    moved-Owned s (leave_call n id r s) n (over id r) o (erased s id) (λ k r h. h) refl refl
      (same_id s n (leaving id r) (over id r) at refl) (subst IsOwn at (o.told n))
Step-Owned {s} (route resp idle) o = look_up-Owned s resp o
Step-Owned {s} (send n resp at room) o = send_to-Owned s n resp at o

pub Reach-Owned : {s t : System} → Reach s t → Owned s → Owned t
Reach-Owned here o = o
Reach-Owned (next r st) o = Step-Owned st (Reach-Owned r o)

-- However the goroutines interleave, and whatever IDs the calls have, a call that returns a
-- response returns one with its own ID.
pub resolve_gets_own :
    {s : System} (n : ℕ) (id : Bytes) (resp : Response)
    → Reach init s
    → s.calls n ≡ over id (answered resp)
    → resp.id ≡ id
resolve_gets_own n id resp r at = subst IsOwn at ((Reach-Owned r init-Owned).told n) resp refl

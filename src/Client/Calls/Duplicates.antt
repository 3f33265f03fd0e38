-- ===== src/Client/Calls/Duplicates.antt =====
-- internal/client/client.go: what a second response for one request can do to the dispatcher.
use redis_dns.Prelude.{
  ℕ, Bool, true, false, List, ◌∷◌, ◌≡◌, ◌≢◌, inl, inr, refl, sym, ap, subst, ◌∙◌, ◌==◌, none, some,
  arith, Bool-cases, Option-cases, ==_iff, ==_refl, none_clash,
}
use redis_dns.Prelude.Bytes.{Bytes}
use redis_dns.Proto.{Response}
use redis_dns.Client.Pending.{answered, accept, timed_out}
use redis_dns.Client.Calls.{
  Stage, absent, waiting, leaving, over, Reader, sending, update, System, init, timer, begin_call,
  confirm_call, receive_call, end_call, leave_call, look_up, send_to, Step, begin, confirm, receive,
  give_up, leave, route, send, Reach, here, next,
}
use redis_dns.Client.Calls.Sending.{IsGone}
use redis_dns.Client.Calls.Owners.{Owned, init-Owned, Reach-Owned, id_of, GivesUp-answered}

abbrev IsUnanswered : Stage → Type 0
IsUnanswered absent = Unit
IsUnanswered (waiting id confirmed) = Unit
IsUnanswered (leaving id r) = (got : Response) → r ≢ answered got
IsUnanswered (over id r) = (got : Response) → r ≢ answered got

-- The dispatcher sends to a full channel that nobody will read; of some of the calls none has a
-- response.
record Deaf (Some : ℕ → Type 0) (n : ℕ) (resp old : Response) (returned : List Bytes) (s : System)
    : Type 0 where
  blocked : s.reader ≡ sending n resp
  stands : s.returned ≡ returned
  full : s.chan n ≡ some old
  gone : IsGone (s.calls n)
  others : (m : ℕ) → Some m → (s.chan m ≡ none) × IsUnanswered (s.calls m)

gone-unlike :
    (s : System) (n m : ℕ) (stage : Stage)
    → IsGone (s.calls n)
    → s.calls m ≡ stage
    → (IsGone stage → ⊥)
    → (n == m) ≡ false
gone-unlike s n m stage g at not_gone = elim (Bool-cases (n == m)) [
  | inl is ↦
      let e : n ≡ m = ground (arith, ==_iff n m) in
      absurd (not_gone (subst IsGone at (subst (λ k. IsGone (s.calls k)) e g)))
  | inr other ↦ other
]

unlike-ne : (n m : ℕ) → (n == m) ≡ false → m ≢ n
unlike-ne n m h e = absurd (ground (arith, ==_iff n m))

module _ (Some : ℕ → Type 0) (n : ℕ) (resp old : Response) (returned : List Bytes) where
  abbrev IsDeaf : System → Type 0
  IsDeaf s = Deaf Some n resp old returned s

  -- A step of a call that neither sends nor brings the call that is gone back.
  call-Deaf :
      (m : ℕ) (s t : System) (stage : Stage)
      → IsDeaf s
      → t.reader ≡ s.reader
      → t.returned ≡ s.returned
      → t.chan n ≡ s.chan n
      → ((k : ℕ) → Some k → t.chan k ≡ s.chan k)
      → t.calls ≡ update s.calls m stage
      → IsGone (update s.calls m stage n)
      → (Some m → IsUnanswered stage)
      → IsDeaf t
  call-Deaf m s t stage d reader back chan chans calls gone un = record {
    blocked = reader ∙ d.blocked;
    stands = back ∙ d.stands;
    full = chan ∙ d.full;
    gone = subst (λ c. IsGone (c n)) (sym calls) gone;
    others = λ k in_some. (
      chans k in_some ∙ (d.others k in_some).0,
      subst (λ c. IsUnanswered (c k)) (sym calls)
          (elim (Bool-cases (k == m)) [
            | inl is ↦
                let e : k ≡ m = ground (arith, ==_iff k m) in rw is (un (subst Some e in_some))
            | inr other ↦ rw other ((d.others k in_some).1)
          ]),
    );
  }

  emptied_others :
      (m : ℕ) (s : System) → IsDeaf s → (k : ℕ) → Some k → update s.chan m none k ≡ s.chan k
  emptied_others m s d k in_some = elim (Bool-cases (k == m)) [
    | inl is ↦ rw is (sym ((d.others k in_some).0))
    | inr other ↦ rw other refl
  ]

  Step-Deaf : {s t : System} → Step s t → IsDeaf s → IsDeaf t
  Step-Deaf {s} (begin m id at) d =
      unfold begin_call in
      let unlike = gone-unlike s n m absent d.gone at (λ x. x) in
      call-Deaf m s (begin_call m id s) (waiting id false) d refl refl (rw unlike refl)
        (emptied_others m s d) refl (rw unlike d.gone) (λ h. tt)
  Step-Deaf {s} (confirm m id at) d =
      unfold confirm_call in
      let unlike = gone-unlike s n m (waiting id false) d.gone at (λ x. x) in
      call-Deaf m s (confirm_call m id s) (waiting id true) d refl refl refl (λ k h. refl) refl
        (rw unlike d.gone) (λ h. tt)
  Step-Deaf {s} (receive m id c got at full) d =
      unfold receive_call in
      let unlike = gone-unlike s n m (waiting id c) d.gone at (λ x. x) in
      call-Deaf m s (receive_call m id got s) (leaving id (accept got)) d refl refl (rw unlike refl)
        (emptied_others m s d) refl (rw unlike d.gone)
        (λ h. absurd (none_clash (sym ((d.others m h).0) ∙ full)))
  Step-Deaf {s} (give_up m id c r at gives) d =
      unfold end_call in
      let unlike = gone-unlike s n m (waiting id c) d.gone at (λ x. x) in
      call-Deaf m s (end_call m id r s) (leaving id r) d refl refl refl (λ k h. refl) refl
        (rw unlike d.gone) (λ h got. GivesUp-answered got gives)
  Step-Deaf {s} (leave m id r at) d =
      unfold leave_call in
      call-Deaf m s (leave_call m id r s) (over id r) d refl refl refl (λ k h. refl) refl
        (elim (Bool-cases (n == m)) [ inl is ↦ rw is tt | inr other ↦ rw other d.gone ])
        (λ h. subst IsUnanswered at ((d.others m h).1))
  Step-Deaf {s} (route again idle) d = let clash = sym d.blocked ∙ idle in absurd (cc)
  Step-Deaf {s} (send m again at room) d =
      let same = sym d.blocked ∙ at in
      let m_is : m ≡ n = cc in absurd (none_clash (sym room ∙ ap s.chan m_is ∙ d.full))

  Reach-Deaf : {s t : System} → Reach s t → IsDeaf s → IsDeaf t
  Reach-Deaf here d = d
  Reach-Deaf (next r st) d = Step-Deaf st (Reach-Deaf r d)

routed :
    (n : ℕ) (resp : Response) (s : System)
    → s.waits resp.id ≡ some n
    → look_up resp s ≡ record s { reader = sending n resp }
unfolding look_up
routed n resp s known = rw (known, look_up) refl

-- A call that has not begun has no response, and a channel with none.
later-IsUnanswered :
    (n m : ℕ) (id : Bytes) (confirmed : Bool) (resp : Response) (s : System)
    → Owned s
    → s.calls n ≡ waiting id confirmed
    → s.calls m ≡ absent
    → (update s.chan n (some resp) m ≡ none)
      × IsUnanswered (update s.calls n (leaving id timed_out) m)
later-IsUnanswered n m id confirmed resp s o at h = elim (Bool-cases (m == n)) [
  | inl is ↦
      let e : m ≡ n = ground (arith, ==_iff m n) in
      let clash = sym h ∙ ap s.calls e ∙ at in absurd (cc)
  | inr other ↦ rw other (elim (Option-cases (s.chan m)) [
    | inl room ↦ (room, subst IsUnanswered (sym h) tt)
    | inr (old, full) ↦ absurd (none_clash (sym (ap id_of h) ∙ o.held m old full))
  ])
]

duplicate-Deaf :
    (n : ℕ) (id : Bytes) (confirmed : Bool) (resp again : Response) (s : System)
    → Owned s
    → s.reader ≡ Reader.ready
    → s.calls n ≡ waiting id confirmed
    → s.chan n ≡ none
    → s.waits id ≡ some n
    → resp.id ≡ id
    → again.id ≡ id
    → (t : System) × Reach s t
      × Deaf (λ m. s.calls m ≡ absent) n again resp (resp.id ∷ s.returned) t
unfolding end_call send_to
duplicate-Deaf n id confirmed resp again s o idle at room known first second =
    let known' : s.waits resp.id ≡ some n = ap s.waits first ∙ known in
    let s1 : System = record s { reader = sending n resp } in
    let s2 = send_to n resp s1 in
    let s3 : System = record s2 { reader = sending n again } in
    let r1 : Reach s s1 = subst (Reach s) (routed n resp s known') (next here (route resp idle)) in
    let r2 : Reach s s2 = next r1 (send n resp refl room) in
    let r3 : Reach s s3 =
      subst (Reach s) (routed n again s2 (ap s.waits second ∙ known))
        (next r2 (route again refl)) in
    (
      end_call n id timed_out s3,
      next r3 (give_up n id confirmed timed_out at (timer confirmed)),
      record {
        blocked = refl;
        stands = refl;
        full = rw (==_refl n) refl;
        gone = rw (==_refl n) tt;
        others = λ m h. later-IsUnanswered n m id confirmed resp s o at h;
      },
    )

-- If two responses come for a call that waits with an empty channel, and the call gives up before
-- it receives, there is an order of steps after which the dispatcher stands at the second send for
-- good: no response is dispatched any more, and no call that begins later returns one.
pub duplicate_stops_dispatcher :
    {s : System} (n : ℕ) (id : Bytes) (confirmed : Bool) (resp again : Response)
    → Reach init s
    → s.reader ≡ Reader.ready
    → s.calls n ≡ waiting id confirmed
    → s.chan n ≡ none
    → s.waits id ≡ some n
    → resp.id ≡ id
    → again.id ≡ id
    → (t : System) × Reach s t
      × ((u : System)
          → Reach t u
          → (u.reader ≡ sending n again)
            × (u.returned ≡ resp.id ∷ s.returned)
            × ((m : ℕ) (own : Bytes) (got : Response)
                → s.calls m ≡ absent
                → u.calls m ≢ over own (answered got)))
duplicate_stops_dispatcher {s} n id confirmed resp again r idle at room known first second =
    let (t, run, deaf) =
      duplicate-Deaf n id confirmed resp again s (Reach-Owned r init-Owned) idle at room known first
        second in
    (
      t,
      run,
      λ u later.
          let d =
            Reach-Deaf (λ m. s.calls m ≡ absent) n again resp (resp.id ∷ s.returned) later deaf in
          (
            d.blocked,
            d.stands,
            λ m own got h over_at. subst IsUnanswered over_at ((d.others m h).1) got refl,
          ),
    )

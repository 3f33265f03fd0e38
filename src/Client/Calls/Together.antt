-- ===== src/Client/Calls/Together.antt =====
-- internal/client/client.go: `dispatch` as one step, as Pending.antt has it, against its two halves
-- among the goroutines.
use redis_dns.Prelude.{
  ℕ, ◌≡◌, inl, inr, refl, sym, ap, subst, ◌∙◌, ◌==◌, ◌∷◌, Option, none, some, arith, Bool-cases,
  Option-cases, ==_iff, ==_refl,
}
use redis_dns.Prelude.Bytes.{Bytes, insert, bytes_eq, bytes_eq-eq, bytes_eq_iff}
use redis_dns.Proto.{Response}
use redis_dns.Client.Pending.{Chan, Waits, Dispatched, sent, dropped, blocked, dispatch}
use redis_dns.Client.Calls.{
  Reader, sending, update, System, init, look_up, send_to, Step, send, route, Reach,
}
use redis_dns.Client.Calls.Owners.{Owned, init-Owned, Reach-Owned, id_of}

-- The pending requests as one map from IDs to what their channels hold.
abbrev content : (ℕ → Chan) → Option ℕ → Option Chan
content chan none = none
content chan (some n) = some (chan n)

abbrev pub waits_of : System → Waits
waits_of s id = content s.chan (s.waits id)

-- What the second half of `dispatch` makes of the state that the first half leaves.
abbrev pub Then : Response → System → System → Dispatched → Type 0
Then resp s mid (sent waits) =
    (n : ℕ) × Step mid (send_to n resp mid)
    × ((send_to n resp mid).reader ≡ Reader.ready)
    × ((id : Bytes) → waits_of (send_to n resp mid) id ≡ waits id)
Then resp s mid dropped =
    (mid.reader ≡ Reader.ready) × ((id : Bytes) → waits_of mid id ≡ waits_of s id)
Then resp s mid blocked =
    (n : ℕ) × (old : Response) × (mid.reader ≡ sending n resp) × (mid.chan n ≡ some old)

looked_up :
    (resp : Response) (s : System) (n : ℕ)
    → s.waits resp.id ≡ some n
    → look_up resp s ≡ record s { reader = sending n resp }
unfolding look_up
looked_up resp s n known = rw (known, look_up) refl

unlisted :
    (resp : Response) (s : System)
    → s.waits resp.id ≡ none
    → look_up resp s ≡ record s { returned = resp.id ∷ s.returned }
unfolding look_up
unlisted resp s unknown = rw (unknown, look_up) refl

-- No other ID is listed with the channel that is sent to.
sent-waits_of :
    (resp : Response) (s : System) (n : ℕ)
    → Owned s
    → s.waits resp.id ≡ some n
    → (id : Bytes)
    → content (update s.chan n (some resp)) (s.waits id)
      ≡ insert resp.id (some resp) (waits_of s) id
sent-waits_of resp s n o known id = elim (Bool-cases (bytes_eq id resp.id)) [
  | inl same ↦
      let e : id ≡ resp.id = bytes_eq-eq id resp.id same in
      let at : s.waits id ≡ some n = ap s.waits e ∙ known in
      rw same (ap (content (update s.chan n (some resp))) at ∙ rw (==_refl n) refl)
  | inr other ↦ rw other (elim (Option-cases (s.waits id)) [
    | inl unknown ↦
        ap (content (update s.chan n (some resp))) unknown ∙ sym (ap (content s.chan) unknown)
    | inr (k, at) ↦ elim (Bool-cases (k == n)) [
      | inl is ↦
          let e : k ≡ n = ground (arith, ==_iff k n) in
          let owner : some id ≡ some resp.id =
            sym (o.listed id k at) ∙ ap (λ m. id_of (s.calls m)) e ∙ o.listed resp.id n known in
          let same : id ≡ resp.id = cc in absurd (ground (arith, bytes_eq_iff id resp.id))
      | inr far ↦
          ap (content (update s.chan n (some resp))) at ∙ rw far refl ∙ sym (ap (content s.chan) at)
    ]
  ])
]

-- `dispatch` is its two halves with nothing in between: on the map of what the channels hold they
-- do what `dispatch` does, the send is possible exactly when `dispatch` sends, and it is held up
-- when `dispatch` blocks.
pub dispatch-Then :
    {s : System} (resp : Response)
    → Reach init s
    → s.reader ≡ Reader.ready
    → Step s (look_up resp s) × Then resp s (look_up resp s) (dispatch resp (waits_of s))
unfolding dispatch send_to
dispatch-Then {s} resp r idle = (
  route resp idle,
  elim (Option-cases (s.waits resp.id)) [
    | inl unknown ↦
        let none_there : waits_of s resp.id ≡ none = ap (content s.chan) unknown in
        subst (λ mid. Then resp s mid (dispatch resp (waits_of s))) (sym (unlisted resp s unknown))
          (rw (none_there, dispatch) (idle, λ id. refl))
    | inr (n, known) ↦
        subst (λ mid. Then resp s mid (dispatch resp (waits_of s))) (sym (looked_up resp s n known))
          (elim (Option-cases (s.chan n)) [
            | inl room ↦
                let there : waits_of s resp.id ≡ some none =
                  ap (content s.chan) known ∙ ap some room in
                rw (there, dispatch)
                  (
                    n,
                    send n resp refl room,
                    refl,
                    sent-waits_of resp s n (Reach-Owned r init-Owned) known,
                  )
            | inr (old, full) ↦
                let there : waits_of s resp.id ≡ some (some old) =
                  ap (content s.chan) known ∙ ap some full in
                rw (there, dispatch) (n, old, refl, full)
          ])
  ],
)

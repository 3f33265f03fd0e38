-- ===== src/Tests/Calling.antt =====
-- The client's goroutines, in a run of one call and in one where its response comes twice.
use redis_dns.Prelude.{
  ◌⊎◌, ◌↔◌, inl, inr, sym, ◌∙◌, ◌==◌, ==_iff, arith, Bool-cases, none_clash, none, some, ℕ, true,
  ◌≡◌, ◌≢◌, refl, [], ◌∷◌,
}
use redis_dns.Prelude.Bytes.{Bytes, bytes_eq, ascii}
use redis_dns.Prelude.Int.{pos}
use redis_dns.Proto.{Response}
use redis_dns.Client.Pending.{dispatch, accept, answered}
use redis_dns.Client.Calls.{
  absent, over, sending, System, init, begin_call, confirm_call, receive_call, leave_call, look_up,
  send_to, Step, begin, confirm, receive, leave, route, send, Reach, here, next,
}
use redis_dns.Client.Calls.Listing.{IsOpen, HasDistinctIds, waits_lists_open_calls}
use redis_dns.Client.Calls.Owners.{id_of, resolve_gets_own}
use redis_dns.Client.Calls.Sending.{IsGone, first_response_is_sent}
use redis_dns.Client.Calls.Duplicates.{duplicate_stops_dispatcher}
use redis_dns.Client.Calls.Together.{waits_of, Then, dispatch-Then}
use redis_dns.Tests.Samples.{name}

abbrev own_id : Bytes
own_id = ascii "7f"

abbrev own : Response
own = record {
  id = own_id;
  name = name;
  qtype = 1;
  rcode = 0;
  resolved_at = pos 5;
  wire = 1 ∷ [];
  err = [];
}

-- A call with its channel, then its response looked up, sent, received, and the call over.
abbrev asking : System
asking = confirm_call 0 own_id (begin_call 0 own_id init)

abbrev sending_own : System
sending_own = look_up own asking

abbrev told : System
told = leave_call 0 own_id (answered own) (receive_call 0 own_id own (send_to 0 own sending_own))

asking_run : Reach init asking
unfolding begin_call confirm_call
asking_run = next (next here (begin 0 own_id refl)) (confirm 0 own_id refl)

sending_run : Reach init sending_own
unfolding begin_call confirm_call
sending_run = next asking_run (route own refl)

told_run : Reach init told
unfolding begin_call confirm_call look_up send_to receive_call leave_call accept bytes_eq
told_run =
    next (next (next sending_run (send 0 own refl refl)) (receive 0 own_id true own refl refl))
      (leave 0 own_id (answered own) refl)

resolve_gets_own_example : own.id ≡ own_id
unfolding begin_call confirm_call look_up send_to receive_call leave_call accept bytes_eq
resolve_gets_own_example = resolve_gets_own {s = told} 0 own_id own told_run refl

first_response_is_sent_example :
    Step sending_own (send_to 0 own sending_own)
    × (IsGone (sending_own.calls 0)
        ⊎ ((t : System) × (id : Bytes) × Reach (send_to 0 own sending_own) t
            × (t.calls 0 ≡ over id (accept own))))
unfolding begin_call confirm_call look_up bytes_eq
first_response_is_sent_example =
    first_response_is_sent {s = sending_own} 0 own sending_run refl (λ m. elim m [ ])

duplicate_stops_dispatcher_example :
    (t : System) × Reach asking t
    × ((u : System)
        → Reach t u
        → (u.reader ≡ sending 0 own)
          × (u.returned ≡ own_id ∷ [])
          × ((m : ℕ) (id : Bytes) (got : Response)
              → asking.calls m ≡ absent
              → u.calls m ≢ over id (answered got)))
unfolding begin_call confirm_call bytes_eq
duplicate_stops_dispatcher_example =
    duplicate_stops_dispatcher {s = asking} 0 own_id true own own asking_run refl refl refl refl
      refl refl

dispatch-Then_example :
    Step asking (look_up own asking)
    × Then own asking (look_up own asking) (dispatch own (waits_of asking))
unfolding begin_call confirm_call
dispatch-Then_example = dispatch-Then {s = asking} own asking_run refl

begun_only : (n : ℕ) (id : Bytes) → id_of (asking.calls n) ≡ some id → n ≡ 0
unfolding begin_call confirm_call
begun_only n id h = elim (Bool-cases (n == 0)) [
  | inl is ↦ ground (arith, ==_iff n 0)
  | inr other ↦
      let nobody : id_of (asking.calls n) ≡ none = rw other refl in
      absurd (none_clash (sym nobody ∙ h))
]

one_call-HasDistinctIds : HasDistinctIds asking
one_call-HasDistinctIds n m id hn hm = begun_only n id hn ∙ sym (begun_only m id hm)

waits_lists_open_calls_example : (asking.waits own_id ≡ some 0) ↔ IsOpen own_id (asking.calls 0)
waits_lists_open_calls_example =
    waits_lists_open_calls {s = asking} own_id 0 asking_run one_call-HasDistinctIds

-- ===== src/Client/Calls/Listing.antt =====
-- internal/client/client.go: which requests `waits` lists.
use redis_dns.Prelude.{
  ◌↔◌, ℕ, true, false, ◌≡◌, inl, inr, refl, sym, ap, subst, ◌∙◌, ◌==◌, none, some, arith,
  Bool-cases, Option-cases, ==_iff, ==_refl, none_clash,
}
use redis_dns.Prelude.Bytes.{Bytes, erase, bytes_eq, bytes_eq-eq, bytes_eq_refl}
use redis_dns.Proto.{Response}
use redis_dns.Client.Pending.{Resolved, accept}
use redis_dns.Client.Calls.{
  Stage, absent, waiting, leaving, over, update, System, init, begin_call, confirm_call,
  receive_call, end_call, leave_call, look_up, send_to, Step, begin, confirm, receive, give_up,
  leave, route, send, Reach, here, next,
}
use redis_dns.Client.Calls.Owners.{Owned, init-Owned, Reach-Owned, id_of}
use redis_dns.Client.Calls.Keeping.{step_keeps_id}

-- A call with that ID that has registered and not yet unregistered.
abbrev pub IsOpen : Bytes → Stage → Type 0
IsOpen id absent = ⊥
IsOpen id (waiting own confirmed) = own ≡ id
IsOpen id (leaving own r) = own ≡ id
IsOpen id (over own r) = ⊥

-- No two calls have one ID.
abbrev pub HasDistinctIds : System → Type 0
HasDistinctIds s =
    (n m : ℕ) (id : Bytes) → id_of (s.calls n) ≡ some id → id_of (s.calls m) ≡ some id → n ≡ m

-- What is listed is open, and the other way round.
record Lists (s : System) : Type 0 where
  listed : (id : Bytes) (n : ℕ) → s.waits id ≡ some n → IsOpen id (s.calls n)
  open_listed : (id : Bytes) (n : ℕ) → IsOpen id (s.calls n) → s.waits id ≡ some n

open-id_of : (id : Bytes) (stage : Stage) → IsOpen id stage → id_of stage ≡ some id
open-id_of id absent h = absurd h
open-id_of id (waiting own c) h = ap some h
open-id_of id (leaving own r) h = ap some h
open-id_of id (over own r) h = absurd h

update-same :
    (calls : ℕ → Stage) (n k : ℕ) (stage : Stage) → (k == n) ≡ true → update calls n stage k ≡ stage
update-same calls n k stage is = rw is refl

update-other :
    (calls : ℕ → Stage) (n k : ℕ) (stage : Stage)
    → (k == n) ≡ false
    → update calls n stage k ≡ calls k
update-other calls n k stage other = rw other refl

same_number : (k n : ℕ) → (k == n) ≡ true → k ≡ n
same_number k n is = ground (arith, ==_iff k n)

-- A call that stays open.
stays-Lists :
    (s t : System) (n : ℕ) (stage stage' : Stage)
    → Lists s
    → t.waits ≡ s.waits
    → t.calls ≡ update s.calls n stage'
    → s.calls n ≡ stage
    → ((id : Bytes) → (IsOpen id stage → IsOpen id stage') × (IsOpen id stage' → IsOpen id stage))
    → Lists t
stays-Lists s t n stage stage' l waits calls at same = record {
  listed = λ id k h.
      let was = l.listed id k (sym (ap (λ w. w id) waits) ∙ h) in
      subst (λ c. IsOpen id (c k)) (sym calls)
        (elim (Bool-cases (k == n)) [
          | inl is ↦
              subst (IsOpen id) (sym (update-same s.calls n k stage' is))
                ((same id).0 (subst (IsOpen id) (ap s.calls (same_number k n is) ∙ at) was))
          | inr other ↦ subst (IsOpen id) (sym (update-other s.calls n k stage' other)) was
        ]);
  open_listed = λ id k h.
      let now = subst (λ c. IsOpen id (c k)) calls h in
      ap (λ w. w id) waits
      ∙ l.open_listed id k (elim (Bool-cases (k == n)) [
        | inl is ↦
            subst (IsOpen id) (sym (ap s.calls (same_number k n is) ∙ at))
              ((same id).1 (subst (IsOpen id) (update-same s.calls n k stage' is) now))
        | inr other ↦ subst (IsOpen id) (update-other s.calls n k stage' other) now
      ]);
}

begin-Lists :
    (s : System) (n : ℕ) (id : Bytes)
    → HasDistinctIds (begin_call n id s)
    → s.calls n ≡ absent
    → Lists s
    → Lists (begin_call n id s)
unfolding begin_call
begin-Lists s n id distinct at l = record {
  listed = λ x k h. elim (Bool-cases (bytes_eq x id)) [
    | inl same ↦
        let e : n ≡ k = ground arith in
        subst (λ j. IsOpen x (update s.calls n (waiting id false) j)) e
          (subst (IsOpen x) (sym (update-same s.calls n n (waiting id false) (==_refl n)))
            (sym (bytes_eq-eq x id same)))
    | inr differs ↦
        let was = l.listed x k (ground arith) in
        elim (Bool-cases (k == n)) [
          | inl is ↦ absurd (subst (IsOpen x) (ap s.calls (same_number k n is) ∙ at) was)
          | inr other ↦
              subst (IsOpen x) (sym (update-other s.calls n k (waiting id false) other)) was
        ]
  ];
  open_listed = λ x k h. elim (Bool-cases (k == n)) [
    | inl is ↦
        let same : id ≡ x = subst (IsOpen x) (update-same s.calls n k (waiting id false) is) h in
        let self : bytes_eq x id ≡ true =
          subst (λ y. bytes_eq y id ≡ true) same (bytes_eq_refl id) in
        rw self (ap some (sym (same_number k n is)))
    | inr other ↦
        let was = subst (IsOpen x) (update-other s.calls n k (waiting id false) other) h in
        let known = l.open_listed x k was in
        elim (Bool-cases (bytes_eq x id)) [
          | inl same ↦
              let e : x ≡ id = bytes_eq-eq x id same in
              let mine = ap id_of (update-same s.calls n n (waiting id false) (==_refl n)) in
              let its = open-id_of x (update s.calls n (waiting id false) k) h ∙ ap some e in
              let clash : k ≡ n = distinct k n id its mine in absurd (ground (arith, ==_iff k n))
          | inr differs ↦ rw differs known
        ]
  ];
}

leave-Lists :
    (s : System) (n : ℕ) (id : Bytes) (r : Resolved)
    → Owned s
    → HasDistinctIds s
    → s.calls n ≡ leaving id r
    → Lists s
    → Lists (leave_call n id r s)
unfolding leave_call
leave-Lists s n id r o distinct at l = record {
  listed = λ x k h.
      let known : s.waits x ≡ some k = ground arith in
      let was = l.listed x k known in
      elim (Bool-cases (k == n)) [
        | inl is ↦
            let own : id ≡ x = subst (IsOpen x) (ap s.calls (same_number k n is) ∙ at) was in
            let erased : erase id s.waits x ≡ none =
              subst (λ y. erase id s.waits y ≡ none) own (rw (bytes_eq_refl id) refl) in
            absurd (none_clash (sym erased ∙ h))
        | inr other ↦ subst (IsOpen x) (sym (update-other s.calls n k (over id r) other)) was
      ];
  open_listed = λ x k h. elim (Bool-cases (k == n)) [
    | inl is ↦ absurd (subst (IsOpen x) (update-same s.calls n k (over id r) is) h)
    | inr other ↦
        let was = subst (IsOpen x) (update-other s.calls n k (over id r) other) h in
        elim (Bool-cases (bytes_eq x id)) [
          | inl same ↦
              let its = open-id_of x (s.calls k) was ∙ ap some (bytes_eq-eq x id same) in
              let clash : k ≡ n = distinct k n id its (ap id_of at) in
              absurd (ground (arith, ==_iff k n))
          | inr differs ↦ rw differs (l.open_listed x k was)
        ]
  ];
}

look_up-Lists : (s : System) (resp : Response) → Lists s → Lists (look_up resp s)
unfolding look_up
look_up-Lists s resp l = elim (Option-cases (s.waits resp.id)) [
  | inl unknown ↦ rw (unknown, look_up) (record { listed = l.listed; open_listed = l.open_listed })
  | inr (n, known) ↦ rw (known, look_up) (record { listed = l.listed; open_listed = l.open_listed })
]

Step-Lists :
    {s t : System} → Step s t → Owned s → HasDistinctIds s → HasDistinctIds t → Lists s → Lists t
Step-Lists {s} (begin n id at) o before after l = begin-Lists s n id after at l
Step-Lists {s} (confirm n id at) o before after l =
    unfold confirm_call in
    stays-Lists s (confirm_call n id s) n (waiting id false) (waiting id true) l refl refl at
      (λ x. (λ h. h, λ h. h))
Step-Lists {s} (receive n id c resp at full) o before after l =
    unfold receive_call in
    stays-Lists s (receive_call n id resp s) n (waiting id c) (leaving id (accept resp)) l refl refl
      at (λ x. (λ h. h, λ h. h))
Step-Lists {s} (give_up n id c r at gives) o before after l =
    unfold end_call in
    stays-Lists s (end_call n id r s) n (waiting id c) (leaving id r) l refl refl at
      (λ x. (λ h. h, λ h. h))
Step-Lists {s} (leave n id r at) o before after l = leave-Lists s n id r o before at l
Step-Lists {s} (route resp idle) o before after l = look_up-Lists s resp l
Step-Lists {s} (send n resp at room) o before after l =
    unfold send_to in record { listed = l.listed; open_listed = l.open_listed }

step_distinct : {s t : System} → Step s t → HasDistinctIds t → HasDistinctIds s
step_distinct st distinct n m id hn hm =
    distinct n m id (step_keeps_id st n id hn) (step_keeps_id st m id hm)

Reach-Lists : {s : System} → Reach init s → HasDistinctIds s → Lists s
Reach-Lists here distinct = record {
  listed = λ id n h. absurd (none_clash h);
  open_listed = λ id n h. absurd h;
}
Reach-Lists (next r st) distinct =
    let before = step_distinct st distinct in
    Step-Lists st (Reach-Owned r init-Owned) before distinct (Reach-Lists r before)

-- If no two calls have one ID, `waits` lists exactly the calls that have registered and not yet
-- unregistered, each under its ID: no call that waits is missed, and nothing is left behind.
pub waits_lists_open_calls :
    {s : System} (id : Bytes) (n : ℕ)
    → Reach init s
    → HasDistinctIds s
    → (s.waits id ≡ some n) ↔ IsOpen id (s.calls n)
waits_lists_open_calls id n r distinct =
    let l = Reach-Lists r distinct in (l.listed id n, l.open_listed id n)

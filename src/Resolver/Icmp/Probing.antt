-- ===== src/Resolver/Icmp/Probing.antt =====
-- internal/resolver/icmp.go: what counts as an answer to a probe, and when a probe ends.
use redis_dns.Prelude.{
  ℕ, suc, ◌+◌, ◌≡◌, ◌≢◌, ◌∙◌, refl, ap, subst, ◌⊎◌, inl, inr, Bool, true, false, List, [], ◌∷◌,
  ◌++◌, none, some, arith, All, Any, Bool-cases, Option-cases, length,
}
use redis_dns.Prelude.Bytes.{Bytes}
use redis_dns.Prelude.Int.{ℤ}
use redis_dns.Net.{Ip}
use redis_dns.Resolver.Icmp.{
  IcmpType, ipv4, ipv6, same_type, Echo, Message, IcmpLib, Family, family_of, echo_id, open_socket,
  Round, replied, is_reply, listen, request, echo_loop, icmp_ping,
}

same_type-eq : (s t : IcmpType) → same_type s t ≡ true → s ≡ t
same_type-eq (ipv4 m) (ipv4 n) h = ap ipv4 (ground arith)
same_type-eq (ipv6 m) (ipv6 n) h = ap ipv6 (ground arith)
same_type-eq (ipv4 m) (ipv6 n) h = ground arith
same_type-eq (ipv6 m) (ipv4 n) h = ground arith

same_type_refl : (t : IcmpType) → same_type t t ≡ true
same_type_refl (ipv4 n) = ground arith
same_type_refl (ipv6 n) = ground arith

module _ (lib : IcmpLib) (family : Family) (raw : Bool) (id : ℕ) where
  -- An echo reply of the right type that carries the number of the request, and on a raw socket
  -- this probe's identifier.
  pub record IsAnswer (seq : ℕ) (datagram : Bytes) : Type 0 where
    pub reply : Message
    pub echo : Echo
    pub parses : lib.parse family.proto datagram ≡ some reply
    pub has_type : reply.type_ ≡ family.reply_type
    pub is_echo : reply.body ≡ some echo
    pub has_seq : echo.seq ≡ seq
    pub has_id : raw ≡ true → echo.id ≡ id

  is_reply-IsAnswer :
      (seq : ℕ) (datagram : Bytes)
      → is_reply lib family raw id seq datagram ≡ true
      → IsAnswer seq datagram
  unfolding is_reply
  is_reply-IsAnswer seq datagram h = elim (Option-cases (lib.parse family.proto datagram)) [
    | inl e ↦ ground arith
    | inr (rm, e) ↦ elim (Option-cases rm.body) [
      | inl b ↦ ground arith
      | inr (echo, b) ↦ record {
        reply = rm;
        echo = echo;
        parses = e;
        has_type = same_type-eq rm.type_ family.reply_type (ground arith);
        is_echo = b;
        has_seq = ground arith;
        has_id = ground arith;
      }
    ]
  ]

  IsAnswer-is_reply :
      (seq : ℕ) (datagram : Bytes)
      → IsAnswer seq datagram
      → is_reply lib family raw id seq datagram ≡ true
  unfolding is_reply
  IsAnswer-is_reply seq datagram a =
      let t = same_type_refl family.reply_type in
      rw (a.parses, is_reply) (rw a.has_type (rw t (rw a.is_echo (ground arith))))

  listen-some :
      (seq : ℕ) (reads : List (Bytes × ℤ)) (rtt : ℤ)
      → listen lib family raw id seq reads ≡ some rtt
      → Any (λ p. IsAnswer seq p.0 × (p.1 ≡ rtt)) reads
  unfolding listen
  listen-some seq [] rtt h = ground arith
  listen-some seq ((datagram, since) ∷ reads) rtt h =
      elim (Bool-cases (is_reply lib family raw id seq datagram)) [
        | inl ours ↦ inl (is_reply-IsAnswer seq datagram ours, ground arith)
        | inr other ↦ inr (listen-some seq reads rtt (ground arith))
      ]

  -- Datagrams that do not answer the request with this number.
  abbrev pub AllForeign : ℕ → List (Bytes × ℤ) → Type 0
  AllForeign seq reads = All (λ p. IsAnswer seq p.0 → ⊥) reads

  -- Rounds, from the request with this number on, in which the request goes out and no answer to
  -- it comes back.
  abbrev pub AllLost : ℕ → List Round → Type 0
  AllLost seq [] = Unit
  AllLost seq (r ∷ rs) =
      ((r.over ≡ false) × (r.written ≡ true) × AllForeign seq r.reads) × AllLost (seq + 1) rs

  is_reply-false :
      (seq : ℕ) (datagram : Bytes)
      → (IsAnswer seq datagram → ⊥)
      → is_reply lib family raw id seq datagram ≡ false
  is_reply-false seq datagram other = elim (Bool-cases (is_reply lib family raw id seq datagram)) [
    | inl ours ↦ absurd (other (is_reply-IsAnswer seq datagram ours))
    | inr e ↦ e
  ]

  -- What is foreign is skipped.
  listen-append :
      (seq : ℕ) (foreign reads : List (Bytes × ℤ))
      → AllForeign seq foreign
      → listen lib family raw id seq (foreign ++ reads) ≡ listen lib family raw id seq reads
  unfolding listen
  listen-append seq [] reads other = refl
  listen-append seq (p ∷ foreign) reads (other, others) =
      rw (is_reply-false seq p.0 other) (listen-append seq foreign reads others)

  listen_lost :
      (seq : ℕ) (reads : List (Bytes × ℤ))
      → AllForeign seq reads
      → listen lib family raw id seq reads ≡ none
  unfolding listen
  listen_lost seq [] other = refl
  listen_lost seq (p ∷ reads) (other, others) =
      rw (is_reply-false seq p.0 other) (listen_lost seq reads others)

  listen_first :
      (seq : ℕ) (foreign : List (Bytes × ℤ)) (datagram : Bytes) (rtt : ℤ) (reads : List (Bytes × ℤ))
      → AllForeign seq foreign
      → IsAnswer seq datagram
      → listen lib family raw id seq (foreign ++ (datagram, rtt) ∷ reads) ≡ some rtt
  unfolding listen
  listen_first seq foreign datagram rtt reads others a =
      listen-append seq foreign ((datagram, rtt) ∷ reads) others
      ∙ rw (IsAnswer-is_reply seq datagram a) refl

  -- A request was written and its answer read, from the request with this number on, before the
  -- context was over.
  abbrev pub Answered : ℕ → List Round → ℤ → Type 0
  Answered seq [] rtt = ⊥
  Answered seq (r ∷ rs) rtt =
      (r.over ≡ false)
      × (r.written ≡ true)
      × (Any (λ p. IsAnswer seq p.0 × (p.1 ≡ rtt)) r.reads ⊎ Answered (seq + 1) rs rtt)

  echo_loop-Answered :
      (seq : ℕ) (rounds : List Round) (rtt : ℤ)
      → (echo_loop lib family raw id seq rounds).1 ≡ some (replied rtt)
      → Answered seq rounds rtt
  unfolding echo_loop
  echo_loop-Answered seq [] rtt h = ground arith
  echo_loop-Answered seq (r ∷ rs) rtt h = elim (Bool-cases r.over) [
    | inl over ↦ ground arith
    | inr on ↦ elim (Option-cases (lib.marshal (request lib family raw id seq))) [
      | inl bad ↦ ground arith
      | inr (wire, good) ↦ elim (Bool-cases r.written) [
        | inr unsent ↦ ground arith
        | inl sent ↦ (
          on,
          sent,
          elim (Option-cases (listen lib family raw id seq r.reads)) [
            | inl lost ↦ inr (echo_loop-Answered (seq + 1) rs rtt (ground arith))
            | inr (d, found) ↦ inl (listen-some seq r.reads rtt (ground arith))
          ],
        )
      ]
    ]
  ]

  echo_loop_ends :
      (seq : ℕ) (rounds : List Round)
      → Any (λ r. r.over ≡ true) rounds
      → (echo_loop lib family raw id seq rounds).1 ≢ none
  unfolding echo_loop
  echo_loop_ends seq [] over = elim over [ ]
  echo_loop_ends seq (r ∷ rs) (inl over) = ground arith
  echo_loop_ends seq (r ∷ rs) (inr over) = ground (arith, echo_loop_ends (seq + 1) rs over)

  echo_loop_resends :
      ((m : Message) → (wire : Bytes) × (lib.marshal m ≡ some wire))
      → (seq : ℕ) (lost : List Round) (r : Round) (rest : List Round) (foreign : List (Bytes × ℤ))
        (datagram : Bytes) (rtt : ℤ) (more : List (Bytes × ℤ))
      → AllLost seq lost
      → r.over ≡ false
      → r.written ≡ true
      → r.reads ≡ foreign ++ (datagram, rtt) ∷ more
      → AllForeign (seq + length lost) foreign
      → IsAnswer (seq + length lost) datagram
      → (echo_loop lib family raw id seq (lost ++ r ∷ rest)).1 ≡ some (replied rtt)
  unfolding echo_loop
  echo_loop_resends marshals seq [] r rest foreign datagram rtt more all on sent reads others a =
      let (wire, good) = marshals (request lib family raw id seq) in
      let same : seq + 0 ≡ seq = omega arith in
      let found =
        listen_first seq foreign datagram rtt more (subst (λ n. AllForeign n foreign) same others)
          (subst (λ n. IsAnswer n datagram) same a) in
      rw on (rw good (rw sent (rw reads (rw found refl))))
  echo_loop_resends marshals seq (l ∷ lost) r rest foreign datagram rtt more
        ((on', sent', none'), all) on sent reads others a =
      let (wire, good) = marshals (request lib family raw id seq) in
      let same : seq + suc (length lost) ≡ seq + 1 + length lost = omega arith in
      let rest_answers =
        echo_loop_resends marshals (seq + 1) lost r rest foreign datagram rtt more all on sent reads
          (subst (λ n. AllForeign n foreign) same others)
          (subst (λ n. IsAnswer n datagram) same a) in
      rw on' (rw good (rw sent' (rw (listen_lost seq l.reads none') rest_answers)))

-- A probe succeeds only with an echo reply for the request that it sent last, of the type that it
-- expects for the address's family, and on a raw socket with this probe's identifier; its requests
-- were written before the context was over, and it takes the time from the last one to its reply.
pub icmp_reply_is_ours :
    (lib : IcmpLib) (raw_opens udp_opens : Bool) (pid counter : ℕ) (ip : Ip) (rounds : List Round)
    (rtt : ℤ)
    → (icmp_ping lib raw_opens udp_opens pid counter ip rounds).1 ≡ some (replied rtt)
    → (raw : Bool) × (open_socket raw_opens udp_opens ≡ some raw)
      × Answered lib (family_of ip) raw (echo_id pid counter) 1 rounds rtt
unfolding icmp_ping
icmp_reply_is_ours lib raw_opens udp_opens pid counter ip rounds rtt h =
    elim (Option-cases (open_socket raw_opens udp_opens)) [
      | inl closed ↦ ground arith
      | inr (raw, opened) ↦ (
        raw,
        opened,
        echo_loop-Answered lib (family_of ip) raw (echo_id pid counter) 1 rounds rtt (ground arith),
      )
    ]

-- Once the context is over a probe has returned.
pub icmp_ping_ends :
    (lib : IcmpLib) (raw_opens udp_opens : Bool) (pid counter : ℕ) (ip : Ip) (rounds : List Round)
    → Any (λ r. r.over ≡ true) rounds
    → (icmp_ping lib raw_opens udp_opens pid counter ip rounds).1 ≢ none
unfolding icmp_ping
icmp_ping_ends lib raw_opens udp_opens pid counter ip rounds over =
    elim (Option-cases (open_socket raw_opens udp_opens)) [
      | inl closed ↦ ground arith
      | inr (raw, opened) ↦
          ground (arith, echo_loop_ends lib (family_of ip) raw (echo_id pid counter) 1 rounds over)
    ]

-- However many requests are lost, a probe whose next request is answered succeeds with the time of
-- that answer, whatever datagrams come in between that answer none of its requests, if a socket
-- opens, the library encodes every message, every request is written and the context is not over.
pub icmp_lost_resent :
    (lib : IcmpLib)
    → ((m : Message) → (wire : Bytes) × (lib.marshal m ≡ some wire))
    → (raw_opens udp_opens raw : Bool) (pid counter : ℕ) (ip : Ip) (lost : List Round) (r : Round)
      (rest : List Round) (foreign : List (Bytes × ℤ)) (datagram : Bytes) (rtt : ℤ)
      (more : List (Bytes × ℤ))
    → open_socket raw_opens udp_opens ≡ some raw
    → AllLost lib (family_of ip) raw (echo_id pid counter) 1 lost
    → r.over ≡ false
    → r.written ≡ true
    → r.reads ≡ foreign ++ (datagram, rtt) ∷ more
    → AllForeign lib (family_of ip) raw (echo_id pid counter) (1 + length lost) foreign
    → IsAnswer lib (family_of ip) raw (echo_id pid counter) (1 + length lost) datagram
    → (icmp_ping lib raw_opens udp_opens pid counter ip (lost ++ r ∷ rest)).1 ≡ some (replied rtt)
unfolding icmp_ping
icmp_lost_resent lib marshals raw_opens udp_opens raw pid counter ip lost r rest foreign datagram
      rtt more opened all on sent reads others a =
    rw (opened, icmp_ping)
      (echo_loop_resends lib (family_of ip) raw (echo_id pid counter) marshals 1 lost r rest foreign
        datagram rtt more all on sent reads others a)

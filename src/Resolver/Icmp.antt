-- ===== src/Resolver/Icmp.antt =====
-- internal/resolver/icmp.go: `icmpPing`. The sockets and the ICMP library are parameters; what the
-- socket and the clock do in one turn of the loop is a round. Times are in nanoseconds.
pub mod Probing
pub mod Identity
pub mod OverIpv6
use redis_dns.Prelude.{
  ℕ, ◌+◌, ◌%◌, Bool, true, false, not, ◌&&◌, ◌||◌, List, [], ◌∷◌, Option, none, some, if◌then◌else◌,
  length, take, ltb, ◌==◌,
}
use redis_dns.Prelude.Bytes.{Bytes, ascii, bytes_eq}
use redis_dns.Prelude.Int.{ℤ, pos, ltb_ℤ}
use redis_dns.Net.{Ip, v4_prefix}

-- `icmp.Type`, an interface: a type of `ipv4` and one of `ipv6` are never equal, whatever their
-- numbers.
pub data IcmpType : Type 0 where
  ipv4 : ℕ → IcmpType
  ipv6 : ℕ → IcmpType

abbrev pub same_type : IcmpType → IcmpType → Bool
same_type (ipv4 m) (ipv4 n) = m == n
same_type (ipv6 m) (ipv6 n) = m == n
same_type (ipv4 m) (ipv6 n) = false
same_type (ipv6 m) (ipv4 n) = false

-- `icmp.Echo`
pub record Echo : Type 0 where
  pub id : ℕ
  pub seq : ℕ
  pub payload : Bytes

-- `icmp.Message`, with its body if that is an echo.
pub record Message : Type 0 where
  pub type_ : IcmpType
  pub body : Option Echo

-- `golang.org/x/net/icmp`: `Marshal` and `ParseMessage`, `none` for an error.
pub record IcmpLib : Type 0 where
  pub marshal : Message → Option Bytes
  pub parse : ℕ → Bytes → Option Message

-- What depends on the family: the protocol number and the two types, which are of Go type
-- `ipv4.ICMPType` for both families.
pub record Family : Type 0 where
  pub proto : ℕ
  pub req_type : IcmpType
  pub reply_type : IcmpType

-- `IP.To4() != nil`
unfoldable pub is_v4 : Ip → Bool
is_v4 ip = length ip == 4 || (length ip == 16 && bytes_eq (take 12 ip) v4_prefix)

unfoldable pub family_of : Ip → Family
family_of ip =
    if is_v4 ip
    then record { proto = 1; req_type = ipv4 8; reply_type = ipv4 0 }
    else record { proto = 58; req_type = ipv4 128; reply_type = ipv4 129 }

-- `(os.Getpid() + int(atomic.AddUint32(&icmpSeq, 1))) & 0xffff`, from the counter before it.
unfoldable pub echo_id : ℕ → ℕ → ℕ
echo_id pid counter = (pid + (counter + 1) % 4294967296) % 65536

-- Which socket is opened: raw, else unprivileged, else none.
unfoldable pub open_socket : Bool → Bool → Option Bool
open_socket raw_opens udp_opens =
    if raw_opens then some true else if udp_opens then some false else none

-- `wait`, from what is left until the context's deadline.
unfoldable pub wait_for : Option ℤ → ℤ
wait_for none = pos 150000000
wait_for (some rem) = if ltb_ℤ rem (pos 150000000) then rem else pos 150000000

-- One turn: whether the context is over when it starts, whether the write succeeds, what is left
-- until the deadline, and the datagrams that are read before the read fails, each with the time
-- since the request was sent.
pub record Round : Type 0 where
  pub over : Bool
  pub written : Bool
  pub left : Option ℤ
  pub reads : List (Bytes × ℤ)

-- What the loop does with its socket: write a request, or set how long the reads may take.
pub data Action : Type 0 where
  write : Bytes → Action
  set_deadline : ℤ → Action

pub data Outcome : Type 0 where
  replied : ℤ → Outcome
  failed : Outcome

module _ (lib : IcmpLib) (family : Family) (raw : Bool) (id : ℕ) where
  -- The tests on a datagram, for the request with number `seq`.
  unfoldable pub is_reply : ℕ → Bytes → Bool
  is_reply seq datagram = elim (lib.parse family.proto datagram) [
    | none ↦ false
    | some rm ↦ if not (same_type rm.type_ family.reply_type) then false else elim rm.body [
      | none ↦ false
      | some echo ↦ if not (echo.seq == seq) then false else not (raw && not (echo.id == id))
    ]
  ]

  -- The inner loop: the time of the first reply, if one comes before the read fails.
  unfoldable pub listen : ℕ → List (Bytes × ℤ) → Option ℤ
  listen seq [] = none
  listen seq ((datagram, since) ∷ reads) =
      let rest = listen seq reads in if is_reply seq datagram then some since else rest

  abbrev pub request : ℕ → Message
  request seq = record {
    type_ = family.req_type;
    body = some (record { id = id; seq = seq; payload = ascii "redis-dns race probe" });
  }

  -- The outer loop, from a request's number: what it does and its result, `none` while it runs on.
  unfoldable pub echo_loop : ℕ → List Round → List Action × Option Outcome
  echo_loop seq [] = ([], none)
  echo_loop seq (r ∷ rs) =
      let (acts, result) = echo_loop (seq + 1) rs in
      if r.over then ([], some failed) else elim (lib.marshal (request seq)) [
        | none ↦ ([], some failed)
        | some wire ↦
            if not r.written then (write wire ∷ [], some failed) else elim (listen seq r.reads) [
              | some rtt ↦ (write wire ∷ set_deadline (wait_for r.left) ∷ [], some (replied rtt))
              | none ↦ (write wire ∷ set_deadline (wait_for r.left) ∷ acts, result)
            ]
      ]

-- `icmpPing`: the sockets that open, the process and the counter, then the address.
unfoldable pub icmp_ping :
    IcmpLib → Bool → Bool → ℕ → ℕ → Ip → List Round → List Action × Option Outcome
icmp_ping lib raw_opens udp_opens pid counter ip rounds = elim (open_socket raw_opens udp_opens) [
  | none ↦ ([], some failed)
  | some raw ↦ echo_loop lib (family_of ip) raw (echo_id pid counter) 1 rounds
]

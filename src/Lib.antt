-- ===== src/Lib.antt =====
-- redis-dns: a split DNS bridge over Redis.
--
-- The client (internal/client) is a DNS and DoH server on the LAN. It answers from a local cache,
-- and puts what it cannot answer on a Redis stream; the server (internal/server), next to an
-- upstream resolver, takes requests off that stream, answers them from the Redis cache or through
-- internal/resolver, and puts the responses on a second stream and fresh answers on a channel.
-- The resolver may race the addresses of an answer and keep the one that responds best, and
-- remembers the outcome in a preferred-IP cache.
--
-- What models what:
--   Net, Dns            Go's `net.IP`, and `dns.Msg` as far as the program reads it
--   Proto               internal/proto/proto.go: the payloads
--   Redisx              internal/redisx/redisx.go: `CacheKey`, the options of `New`, `StartKeepalive`
--   Config              internal/config/config.go
--   Resolver.Ttl        internal/resolver/resolver.go: `MinTTL`
--   Resolver.Records    internal/resolver/race.go: `recordIP`, `answerIPs`, `ipIn`, `narrow`
--   Resolver.Race       internal/resolver/race.go: `EnableRace`, `pickWinner`
--   Resolver.Icmp       internal/resolver/icmp.go: `icmpPing`
--   Resolver.Pref       internal/resolver/pref.go; Resolver.Pref.Redis: pref_redis.go, which
--                       Resolver.Pref.Storage relates to a map of entries
--   Resolver.Resolve    internal/resolver: `New`, `Resolve`, `applyRace`
--   Client              internal/client/client.go: `New`; Client.Ids: `newID`; Client.Serving:
--                       `ListenAndServe`, `serveDoH`
--   Client.Local        internal/client/client.go: `localGet`, `localSet`
--   Client.Pending      internal/client/client.go: `register`, `unregister`, `dispatch`, `resolve`
--   Client.Calls        internal/client/client.go: the same among goroutines, as a step relation
--   Client.Query        internal/client/client.go: `resolveQuery`, `handle`, `reply`, `dohHandler`
--   Client.Streams      internal/client/client.go: `runDispatcher`, `runSubscriber`
--   Client.Follow       internal/client/follow.go, and `SwapRedis` of client.go
--   Server.Stats        internal/server/stats.go: counting, and the schedule of dynamic prefetching
--   Server.Ranking      internal/server/stats.go: `decayFactor`, `Top`, `Decay`, and their part in a
--                       sweep of server.go
--   Server.Handle       internal/server/server.go: `handle`, `cache`, `publish`
--   Server.Prefetch     internal/server/server.go: `runPrefetch`, `prefetchSweep`, `prefetchDynamic`
--   Server.Worker       internal/server/server.go: `Run`, `worker`, `ensureGroup`
--   Bridge              the two services over Redis, as a step relation over the operations above
--   Commands            cmd/server/main.go and cmd/client/main.go: `main`, `ping`
-- Prelude has the shared names: tests and lists over the native numbers, integers with the wrap
-- of an int64, byte strings, maps as functions, and decimal texts. Tests applies the theorems to
-- concrete inputs.
--
-- State is passed explicitly. Where goroutines meet, one order of what happens is a list: the
-- reports that the `select` of `pickWinner` receives (Resolver.Race.Event), what happens to the
-- local cache under its lock (Client.Local.Op), what arrives while `resolve` waits
-- (Client.Pending.Arrival), what the readers of Redis meet (Client.Streams.Cursor.Event and
-- Client.Streams.Notice), what `runCounter` receives (Server.Stats.Tick), and the polls of
-- `RunFollow` with the client's work in between (Client.Follow.Moment), what XREADGROUP returns
-- to a worker (Server.Worker.Fetch), the turns of an ICMP probe (Resolver.Icmp.Round) and the
-- pings of a command (Commands.Attempt). The theorems hold for every such list. A race that has
-- seen its list and waits for more returns `none`; it needs no fuel, since every list is finite.
-- Only the digits of a number are produced on fuel, one more than the number, which is enough:
-- the text reads back as the number. What the server sends to Redis is a list of commands
-- (Server.Handle.Command), and what Redis, the clock and the upstream answer is a scene. In
-- Client.Calls a step is what one goroutine does between two points at which another can run: a
-- call of `resolve` registers, receives, gives up or unregisters, and the dispatcher looks a
-- channel up, and then sends. In Bridge a state has the client's two tables and all that either
-- side ever put into Redis; a read from Redis gives back any of it, so lost, repeated and
-- reordered messages are among the runs.
--
-- Parameters, since they are not in this repository: the DNS library (Dns.DnsLib), JSON
-- (Proto.Json), floating-point numbers and Redis's sorted set (Server.Ranking.Floats and
-- SortedSet, with what is documented of them in Server.Ranking.Law), Redis hashes and the texts
-- of addresses (Resolver.Pref.Redis, with what Redis documents of them in Resolver.Pref.Storage),
-- the ICMP library (Resolver.Icmp.IcmpLib), the exchange with the upstream, base64, YAML, the
-- file system and the environment. Strings are lists of byte values. Times and durations are
-- integers of nanoseconds; sums of times do not wrap, products of settings with a unit do, as in
-- Go.
--
-- Not modelled: sockets and connection pools (`tcpDial`, and what the listeners of
-- `ListenAndServe` do with packets), logging, flags and signals, panics, and the singleflight
-- group (its outcome is a parameter of Client.Query; in Bridge any number of queries may store
-- and give what one resolution returned).
pub mod Prelude
pub mod Net
pub mod Dns
pub mod Resolver
pub mod Commands
pub mod Config
pub mod Proto
pub mod Redisx
pub mod Client
pub mod Server
pub mod Bridge
mod Tests

-- ===== src/Resolver.antt =====
-- internal/resolver: upstream resolution on behalf of the server, and its choice among addresses.
pub mod Ttl
pub mod Records
pub mod Race
pub mod Icmp
pub mod Pref
pub mod Resolve

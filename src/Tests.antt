-- ===== src/Tests.antt =====
-- The theorems at concrete inputs, and runs of the definitions.
mod Samples
mod Bridging
mod Storing
mod Pinging
mod Commanding
mod Racing
mod Resolving
mod LanSide
mod Calling
mod Scores
mod Zsets
mod Ranking
mod ServerSide
mod Settings
mod Following

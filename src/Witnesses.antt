-- ===== src/Witnesses.antt =====
-- The theorems at concrete inputs, and tests of the definitions.
mod CacheTable
mod LocalTable
mod Hashing
mod Timing
mod ClientProcess
mod Cluster
mod Server
mod Replication
mod Joining
mod Whole
mod Overlaps

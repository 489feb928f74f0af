-- ===== src/Examples.antt =====
-- The theorems at concrete inputs, and runs of the definitions.
mod Packets
mod Writes
mod Topics
mod Queues
mod Stores
mod Trees
mod Acls

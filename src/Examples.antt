-- ===== src/Examples.antt =====
-- The theorems at concrete data.
mod Data
mod Settings
mod Client
mod Queues
mod Api
mod Loop
mod Interleaved
mod Started
mod Batches

-- ===== src/Tests.antt =====
-- The theorems on the parts of the crate, applied to concrete stores, slots and blocks.
mod Samples
mod Stores
mod Slots
mod Parts
mod Filled
mod Sharing
mod Drops
mod Threads
mod Insertions
mod Wrappers
mod Programs
mod HeaderTests
mod StoreTests
mod BlockTests
mod IterTests

-- ===== src/Examples.antt =====
-- Concrete inputs, and the theorems at them.
mod Heap
mod Memory
mod Journal
mod Segments
mod Like
mod Filter
mod Migration
mod Transaction
mod Engine
mod Registry
mod Ledger
mod Autoincrement
mod Codec
mod Index
mod Join
mod Access

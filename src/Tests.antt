-- ===== src/Tests.antt =====
-- Concrete inputs, and the theorems at them.
mod Table
mod Core
mod Handler
mod Server
mod Registry
mod Seqlock
mod Hash
mod Prepare
mod Open
mod AutoInc
mod Locking
mod Blocks

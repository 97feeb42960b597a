-- ===== src/SkipListTimer.antt =====
-- SkipListTimer/: a timer kept in a skip list.
pub mod Node
pub mod SkipList
pub mod Access
pub mod Chain
pub mod Stored
pub mod Walk
pub mod Link
pub mod Represents
pub mod Levels
pub mod Alloc
pub mod Insert
pub mod Unlink
pub mod Remove
pub mod Clock
pub mod Expire
pub mod Contract
pub mod Due
pub mod Faults
pub mod Reach
pub mod Frame
pub mod Undo
pub mod Main
pub mod Ending
pub mod MainTests
pub mod Tests

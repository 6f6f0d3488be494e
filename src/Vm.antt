-- ===== src/Vm.antt =====
-- The memory system put together: the state of all its parts, the operations that reach from one
-- part into another, and what they keep.
pub mod Machine
pub mod Frames
pub mod Spaces
pub mod Removal
pub mod Fault
mod Tests

-- ===== src/Runtime.antt =====
-- The package `runtime/`.
pub mod Heap
pub mod Kv
pub mod Floats
pub mod Planner
pub mod Placement
pub mod Device
pub mod Slots
pub mod Coordinator
pub mod Scheduler
pub mod Spec

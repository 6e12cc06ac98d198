-- ===== src/Tests.antt =====
-- Tests by evaluation, and each theorem at a concrete input.
mod Allocators
mod Scheduling
mod Speculation
mod Memory
mod Ranks
mod Gpu
mod Shards
mod Serve
mod Texts
mod Files
mod Front

-- ===== src/Loaders.antt =====
-- The weight loaders, loaders/.
pub mod Names
pub mod Shard
pub mod Slices
pub mod Plans
pub mod Fp8
pub mod Safetensors

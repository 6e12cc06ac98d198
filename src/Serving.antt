-- ===== src/Serving.antt =====
-- serving/executor.py: generation with a model that is called through an interface.
pub mod Model
pub mod Generate
pub mod Engine
pub mod Bpe
pub mod Facade

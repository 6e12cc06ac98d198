-- ===== src/Tp.antt =====
-- The tensor-parallel side of the engine, tp/.
pub mod Collectives
pub mod WeightTable
pub mod RankTable

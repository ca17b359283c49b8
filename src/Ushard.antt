-- ===== src/Ushard.antt =====
-- tyrtech/tyrdbs/ushard.cpp: the slices of a ushard, read together (`Merge`).
pub mod Merge

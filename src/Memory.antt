-- ===== src/Memory.antt =====
-- The tables in shared memory: src/shared_memory.hpp, src/shared_memory.tpp, src/shared_memory.cpp.
pub mod Pages
pub mod Index
pub mod Table
pub mod Operations
pub mod Space

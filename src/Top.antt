-- ===== src/Top.antt =====
-- The database of the searched destinations: src/top_destinations.hpp, src/top_destinations.cpp and
-- src/cache.hpp.
pub mod Counting
pub mod Caching
pub mod Database

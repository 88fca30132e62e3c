-- ===== src/Query.antt =====
-- The search request as a set of filters: src/search_query.cpp, and src/deals_database.hpp that fills it.
pub mod Search
pub mod Setters
pub mod Dates
pub mod Requests

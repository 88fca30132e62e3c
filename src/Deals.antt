-- ===== src/Deals.antt =====
-- The deals: src/deals_types.cpp, src/deals_query.cpp and the aggregations over a search.
pub mod Info
pub mod Filter
pub mod Group
pub mod ByDate
pub mod Search
pub mod Reports
pub mod Adding

-- ===== src/Http.antt =====
-- The HTTP protocol: src/http.hpp and src/http.cpp.
pub mod Messages
pub mod Parser
pub mod Response

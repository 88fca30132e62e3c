-- ===== src/Server.antt =====
-- The server: src/deals_server.cpp.
pub mod Routing
pub mod Responses
pub mod Parameters
pub mod Actions
pub mod Handlers
pub mod Serving

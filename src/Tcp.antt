-- ===== src/Tcp.antt =====
-- The TCP layer: src/tcp_server.hpp and src/tcp_server.cpp.
pub mod Connection
pub mod Polling

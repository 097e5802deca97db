-- ===== src/Http.antt =====
-- flint/src/flint/FlintServer.cpp: the HTTP requests, and which handler has them.
pub mod Page
pub mod Server

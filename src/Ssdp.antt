-- ===== src/Ssdp.antt =====
-- flint/src/discovery/ssdp/SSDPServer.cpp: the answers to searches, and the notices.
pub mod Server
pub mod Searches
mod Tests

-- ===== src/Peers.antt =====
-- flint/src/peer/PeerServer.cpp: the server that passes messages between peers.
pub mod Store
pub mod Tables
pub mod Reading
pub mod Server
pub mod Laws
pub mod Sound
pub mod Queue
pub mod Ends
pub mod Connects
pub mod Steps
pub mod Reachable
pub mod Opens
pub mod Routes
pub mod Faults
pub mod Resources
mod Tests

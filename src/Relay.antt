-- ===== src/Relay.antt =====
-- flint/src/ws/WebsocketServer.cpp: the channels between senders and receivers.
pub mod Store
pub mod Server
pub mod Sound
pub mod Moves
pub mod Closing
pub mod Ends
pub mod Steps
pub mod Routes
mod Tests

-- ===== src/Sessions.antt =====
-- flint/src/flint/session: sessions of senders and of the receiver, and the manager of both.
pub mod Manager
pub mod Laws
pub mod View
pub mod Lifetimes
mod Tests

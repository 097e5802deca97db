-- ===== src/Mdns.antt =====
-- flint/src/discovery/mdns: the mDNS packets that the daemon reads and writes.
pub mod Buffer
pub mod Reader
pub mod Message
pub mod Writer
pub mod Composer
pub mod Server
pub mod Holds
pub mod Labels
pub mod Names
pub mod Total
pub mod Packets
pub mod Written
pub mod Growth
pub mod Sections
mod Tests

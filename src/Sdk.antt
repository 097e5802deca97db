-- ===== src/Sdk.antt =====
-- sdk/receiver/src: the receiver's side of the connection with the daemon and of its channel.
pub mod Store
pub mod Channel
pub mod Bus
pub mod Manager
pub mod Daemon
pub mod Delivery
pub mod Order
pub mod Faults
pub mod Told
pub mod Sound
pub mod Kept
pub mod Messages
pub mod Runs
mod Tests

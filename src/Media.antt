-- ===== src/Media.antt =====
-- sdk/receiver/src/media: the media state machine of the receiver SDK.
pub mod Json
pub mod Info
pub mod Store
pub mod Writer
pub mod Manager
pub mod Status
pub mod Keeps
pub mod Messages
pub mod Requests
pub mod Waits
pub mod Answers
mod Tests

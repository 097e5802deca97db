-- ===== src/App/Refine.antt =====
-- That the code of the manager implements the machine of App/Phase.
pub mod Relation
pub mod Writes
pub mod Stop
pub mod Dangling
pub mod Frames
pub mod StopSteps
pub mod Begin
pub mod Finish
pub mod Request
pub mod Register
pub mod Expire
pub mod Steps
pub mod Runs

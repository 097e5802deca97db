-- ===== src/Control.antt =====
-- The HTTP handlers of flint/src/flint/handler.
pub mod Handler
pub mod Answers
mod Tests

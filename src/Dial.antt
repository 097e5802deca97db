-- ===== src/Dial.antt =====
-- flint/src/flint/handler/DialHandler.cpp and flint/src/flint/application/DialConfig.cpp: the DIAL requests.
pub mod Handler
pub mod Phases
pub mod Lives
mod Tests

-- ===== src/App.antt =====
-- flint/src/flint/application: application objects, the manager that owns them, and the
-- configuration of DIAL applications.
pub mod Object
pub mod Store
pub mod Platform
pub mod Manager
pub mod Events
pub mod Phase
pub mod Refine
mod Tests

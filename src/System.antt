-- ===== src/System.antt =====
-- The settings of the device: flint/src/platform/Platform.cpp, SystemControlHandler.cpp and DeviceDescHandler.cpp.
pub mod Device
pub mod Control
pub mod Settings
pub mod Describe
mod Tests

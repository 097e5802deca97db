-- ===== src/Net.antt =====
-- flint/src/net/NetworkManager.cpp: the address of the device.
pub mod Interfaces
pub mod Choice

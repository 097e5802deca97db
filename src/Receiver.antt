-- ===== src/Receiver.antt =====
-- flint/src/flint/handler/ReceiverApplicationHandler.cpp: the connection of a receiver.
pub mod Handler
pub mod Texts
pub mod Answers

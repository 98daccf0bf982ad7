-- ===== src/Ipc.antt =====
-- The protocol between the daemon and its clients (src/ipc).
pub mod Wire
pub mod Hub
pub mod Protocol
pub mod Server
pub mod Tests

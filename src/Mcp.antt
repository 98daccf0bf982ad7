-- ===== src/Mcp.antt =====
-- The bridge to AI agents (src/mcp).
pub mod Gates
pub mod Protocol
pub mod Tools
pub mod Bridge
pub mod Tests

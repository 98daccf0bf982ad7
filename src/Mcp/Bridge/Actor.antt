-- ===== src/Mcp/Bridge/Actor.antt =====
-- The actor that the bridge of src/mcp/server.rs names to the daemon.
use postblox.Common.Text.{Text}

-- ===== src/Tui.antt =====
-- The terminal client (src/tui): its command line, its composer and the lists of its panes.
pub mod Command
pub mod Completion
pub mod Suggestion
pub mod Bytes
pub mod Lines
pub mod Composer
pub mod Mailbox
pub mod FolderCache
pub mod MessageList
pub mod Tests

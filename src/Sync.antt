-- ===== src/Sync.antt =====
-- internal/backup: what the runs of the services do with the pages of a Graph delta, in
-- onedrive.go and exchange.go, with the downloads of internal/graph/client.go. The answers of the
-- Graph API are arguments; the texts of messages and warnings are left out, and warnings counted.
pub mod Fetch
pub mod Names
pub mod Reuse
pub mod Pages
pub mod Drive
pub mod Mail
pub mod Checkpoint
pub mod Resume
pub mod Interrupted
pub mod Content
pub mod Placeholder
pub mod Files
pub mod Safe
pub mod Users

-- ===== src/Node.antt =====
-- node: the messages, the transfer of files, the checks of an upload, the tasks and their manager, and the
-- loop that accepts connections.
pub mod Message
pub mod Checks
pub mod Receive
pub mod Send
pub mod SendAll
pub mod Wire
pub mod Tags
pub mod Proofs
pub mod Backup
pub mod Manage
pub mod MinerCache
pub mod Filler
pub mod Tasks
pub mod Space
pub mod Accept

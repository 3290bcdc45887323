-- ===== src/Inbox.antt =====
-- src/modules/messaging: what users write to each other, read and list.
pub mod Rows
pub mod Threads
pub mod Send
pub mod Messages
pub mod Read
pub mod Newest
pub mod Paging

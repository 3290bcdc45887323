-- ===== src/Reviews.antt =====
-- src/modules/reviews: rows, submission and replies, listings.
pub mod Rows
pub mod Submit
pub mod Aggregates
pub mod Unrated
pub mod Submitted
pub mod Reconcile
pub mod Replied
pub mod History
pub mod Listing
pub mod Counts
pub mod Manage

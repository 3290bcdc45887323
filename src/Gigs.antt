-- ===== src/Gigs.antt =====
-- src/modules/gigs: the gigs that sellers offer, their texts and images, and their review by an
-- administrator.
pub mod Rows
pub mod Validate
pub mod Sensitive
pub mod Edit
pub mod Update
pub mod Moderate
pub mod Images
pub mod Status
pub mod Commands
pub mod Bounds
pub mod Attached
pub mod Created
pub mod Children
pub mod Reviewed

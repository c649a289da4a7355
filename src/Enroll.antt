-- ===== src/Enroll.antt =====
-- internal/enroll: the issuer bot, from an open certificate request to an issued leaf.
pub mod Form
pub mod Messages
pub mod Ledgers
pub mod Issuance
pub mod Process

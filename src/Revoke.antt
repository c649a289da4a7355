-- ===== src/Revoke.antt =====
-- internal/revoke: revocation by the holder of a certificate's key, and by the organisation.
pub mod Find
pub mod Apply
pub mod Messages
pub mod SelfService
pub mod Privileged

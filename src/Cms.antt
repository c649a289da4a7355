-- ===== src/Cms.antt =====
-- internal/cms/openssl and internal/cms/fake: the verification of a revocation request.
pub mod Openssl
pub mod Fake

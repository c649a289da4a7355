-- ===== src/Cmd.antt =====
-- cmd: the commands that the workflows run. What they write to the log is not modelled.
pub mod Config
pub mod Batch
pub mod Issuer
pub mod Revoker
pub mod Privrevoke
pub mod Crlgen
pub mod Seedcrl

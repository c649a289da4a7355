-- ===== src/Tests.antt =====
-- Concrete inputs, and the theorems applied to them.
mod Data
mod Names
mod Records
mod Runs
mod Race
mod Forms
mod Interleaving
mod Server
mod Rest
mod Backends
mod Commands
mod Revocations
mod Retries
mod Service
mod Json
mod Listing
mod Openssl
mod Transit
mod Seed

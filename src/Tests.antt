-- ===== src/Tests.antt =====
-- The theorems at work: one concrete run of the code for each.
pub mod Data
pub mod Consent
pub mod Tables
pub mod Inbox
pub mod Lines
pub mod Network
pub mod Stored
pub mod Screen
pub mod Packages
pub mod Clients
pub mod Cards

-- ===== src/Tests.antt =====
-- A concrete platform, a small kernel on it, and the theorems applied to them.
pub mod Lists
pub mod Synch
pub mod Families
pub mod Burial
pub mod Exclusion
pub mod Programs
pub mod Commands
pub mod System
pub mod Refusal
pub mod Startup
pub mod Pipes
pub mod Exercises

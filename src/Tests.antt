-- ===== src/Tests.antt =====
-- Runs of the modelled code on small data, which also show that the theorems' hypotheses can hold.
pub mod Platform
pub mod Data
pub mod Access
pub mod Basics
pub mod Rbac
pub mod Machine
pub mod Settings

-- ===== src/Repository.antt =====
-- The repositories: queries as functions of the tables, statements as functions to the new tables,
-- which a constraint of the schema may refuse.
pub mod Directory
pub mod Machine
pub mod Context
pub mod Roles
pub mod Sessions
pub mod Stored
pub mod Devices
pub mod Rows

-- ===== src/Db.antt =====
-- The database as the repositories see it: tables, transactions, and the constraints that refuse
-- writes. The tables are those of migrations/0001 to 0003, without the columns that no modelled
-- operation reads or writes; a query returns its rows in the order of the table.
pub mod Schema
pub mod Transaction
pub mod Steps
pub mod Settled
pub mod Atomic
pub mod Kept

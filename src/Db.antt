-- ===== src/Db.antt =====
-- The stored state and the ways in which the repositories read and write it: the rows and enums of
-- prisma/models, tables as lists of rows, and a transaction as a function that returns the new
-- tables or an exception. A transaction that throws is rolled back: no tables come with an error.
pub mod Types
pub mod Rows
pub mod Table
pub mod Tx
pub mod World
pub mod Queue

-- ===== src/Store.antt =====
-- The database that internal/infrastructure/persistence/postgres keeps, one list of rows for each
-- table, and the statements that its repositories run on it.
pub mod Rows
pub mod Database
pub mod Spaces
pub mod Threads
pub mod Comments
pub mod Attachments
pub mod Outbox
pub mod Tokens
pub mod Monad
pub mod Triples
pub mod Transactions
pub mod Safety

-- ===== src/Sql.antt =====
-- sql/preprocess/preprocess.go: SQL queries that name datasets, rewritten to legal SQL. `Sql/Tokens`
-- is the scanner, `Sql/Rewrite` and `Sql/Select` the two passes over the tokens.
pub mod Tokens
pub mod Rewrite
pub mod Select
mod Aliases
mod TableRefs
pub mod Ends
mod Tests

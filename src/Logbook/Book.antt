-- ===== src/Logbook/Book.antt =====
-- logbook/logbook.go: `Book`, the operations that write a logbook. What an operation wrote to the
-- store stays when a later step of it returns an error, so an operation returns the book beside
-- its result. `hash` is `Op.Hash`; `writes` says whether the encrypted write of the journal to the
-- file system succeeds; a timestamp is an argument. Events are collected in `events`.
pub mod Defs
pub mod Resolve
pub mod Datasets
pub mod Versions
pub mod Access
pub mod Appending
pub mod Remote
mod Tests

-- ===== src/Logbook.antt =====
-- logbook/logbook.go: the histories of datasets over the operation logs.
pub mod Model
pub mod History
pub mod Book

-- ===== src/Api.antt =====
-- api/util: the pages and orderings that a request asks for.
pub mod Page
pub mod Order
pub mod Reading
mod Tests

-- ===== src/Fill.antt =====
-- base/fill: assigning decoded data to the fields of a structure,
-- and the places that paths name.
pub mod Types
pub mod Errors
pub mod Put
pub mod Fits
mod Units
mod Parts
pub mod Typed
pub mod Named
pub mod Walk
pub mod Paths
pub mod Plain
pub mod Again
pub mod Reading
mod Tests
mod PathTests

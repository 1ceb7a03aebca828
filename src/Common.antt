-- ===== src/Common.antt =====
-- The names that the other modules share: the libraries', passed on, and those of the children.
mod Tests
mod Lists
mod Keys
pub mod JsMap
pub mod Sets
pub mod Text
pub mod Scan
pub use Tests.*
pub use Lists.*
pub use Keys.*

-- ===== src/Manifest.antt =====
-- manifest.ts: the `1tube.json` manifest of a function, parsed from a JSON value.
pub mod Json
mod Parse
pub mod WellFormed
pub mod RoundTrip
mod Tests
unfoldable pub use Parse.*

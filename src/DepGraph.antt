-- ===== src/DepGraph.antt =====
-- backends/bun/dep-graph.ts: the local files of each function, and the reverse index from files to
-- functions. A file is a path, as the walk of the imports found it (`toPath` has run), and `fileKey`
-- is the one of the platforms that compare paths verbatim.
mod Index
pub mod Affected
pub mod Walk
pub mod Refresh
pub mod Parse
mod Tests
unfoldable pub use Index.*

-- ===== src/Compat.antt =====
-- compat/: the parts of the Deno compatibility layer that the graph and the plugin share.
pub mod Specifiers
pub mod ImportMap

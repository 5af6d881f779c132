-- ===== src/GeeWeb.antt =====
-- geeweb/gee: a web framework.
pub mod Trie
pub mod Router
pub mod Engine
pub mod Context
pub mod Response
pub mod Static
mod Tests

-- ===== src/Cache.antt =====
-- cache/build.go and cache/serve.go: the builder of the files, and their server.
pub mod Server
pub mod Builder
pub mod Located
pub mod Held
pub mod Served
pub mod Linked
mod Tests
mod BuilderTests

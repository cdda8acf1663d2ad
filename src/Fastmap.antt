-- ===== src/Fastmap.antt =====
-- Package fastmap: a sorted file of pages with an index of prefixes, and the multimap on it.
pub mod Sink
pub mod Search
pub mod Writer
pub mod Map
pub mod Inline
pub mod MultiWriter
pub mod MultiMap
pub mod Paging
pub mod Build
pub mod RoundTrip
pub mod Values
mod Tests

-- ===== src/Collection.antt =====
-- mongodb/collection.go over the driver's collection. The spans of OpenTelemetry are left out: they
-- are started and ended around each call, and nothing of the code depends on them. The integers of
-- the methods have no bound; Width has the conversion from int64 to int as it is on a platform, and
-- Exact compares the two.
pub mod Types
pub mod Read
pub mod Write
pub mod Pages
pub mod Paging
pub mod Cursor
pub mod Settled
pub mod Outcomes
pub mod Width
pub mod Exact

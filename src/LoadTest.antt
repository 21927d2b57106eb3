-- ===== src/LoadTest.antt =====
-- The load-test tool, cmd/loadtest: how it waits for the tasks that it has submitted, what it measures
-- of them, and how it judges the run.
pub mod Buckets
pub mod Collector
pub mod Sender
pub mod Report
pub mod Sorting
pub mod Percentiles
pub mod Unfinished

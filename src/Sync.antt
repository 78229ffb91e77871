-- ===== src/Sync.antt =====
-- The code of src/sync: the retry policy, the polling activity, the chunked application of a sync, the
-- coordinator of the providers, the local provider.
pub mod Retry
pub mod Activity
pub mod Chunks
pub mod Coordinator
pub mod Local

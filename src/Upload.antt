-- ===== src/Upload.antt =====
-- service/upload and the upload handlers of route/v2: batches of files that a client announces,
-- the items of a batch, and the resumable tasks that carry them.
pub mod Db
pub mod Statements
pub mod Batches
pub mod Tasks
pub mod Throttle
pub mod Sweeper
pub mod Handlers
pub mod TaskHandlers
pub mod StagingDirs
pub mod Events
pub mod Examples

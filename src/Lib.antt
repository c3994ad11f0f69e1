-- ===== src/Lib.antt =====
-- A verification library for the NimoOS service: the parts of the Go program whose state has
-- rules of its own, as executable definitions, with the theorems that make them correct.
--
-- The parts and how they interact:
-- - A client announces a batch of files, and the server keeps count of what has arrived. The
--   HTTP handlers of route/v2/upload_batches.go (Upload.Handlers) call the batch store of
--   service/upload/batch_store.go (Upload.Batches, on the rows of service/upload/batch.go in
--   Upload.Db). The resumable transfers are tasks of service/upload/store.go (Upload.Tasks). The
--   scan of service/upload/batch_sweeper.go (Upload.Sweeper) interrupts idle batches, cleans up
--   behind them and deletes finished ones. service/upload/touch_throttle.go (Upload.Throttle)
--   limits how often progress is written. The events of tusd are taken up by the goroutines of
--   NewFileTUSHandler in route/v2/tus_file.go, with service/upload/hook.go (Upload.Events): they
--   write the task and the progress, move a completed file to its target (Upload.Events.Ingest)
--   and settle it in its batch. The handlers of route/v2/upload_tasks.go are
--   Upload.TaskHandlers; a cancel searches the directories of service/upload/staging_dirs.go
--   (Upload.StagingDirs). Upload.Batches.Pending has the specification of the batch store: which
--   paths each batch waits for.
-- - Moves and copies of files are queued by service/file.go (OpQueue), which refuses a task that
--   is already queued and lets a task be cancelled before and while it runs. FileOperate of
--   service/file.go (Transfers) carries a task out, item by item, with moveItem, replaceConflict
--   and resolveRenameTarget, on top of the copying and the free names of pkg/utils/file/file.go
--   and route/v2/tus_file.go (Files).
-- - Upgrades are looked for, downloaded and checked by service/system.go (Updates): CheckUpdate
--   (Updates.Check) with compareVersions (Updates.Versions), CheckAppUpdate and UpdateAppVersion
--   (Updates.Install), the choice of UpdateSystemVersion (Updates.System), runAppDownload
--   (Updates.App), runDownload, which resumes what is left of an earlier download (Updates.Os),
--   and the state of the downloader (Updates.Downloader).
-- - The peers of the file drop have sessions that connect, leave, are replaced and time out:
--   CenterHandler of route/v1/file.go (Peers). Peers.Sessions has the steps of the goroutine
--   monitoring and of the goroutines of the sessions: the test whether a session was superseded,
--   the message peer-left and the end of the session are separate steps.
-- - Who may use a path is decided by pkg/utils/path_acl.go and the grants of service/user.go
--   (Access, Access.Disks), and the handlers of route/v1/file.go refuse to rename, move or
--   delete protected folders (Access.Guards).
-- - The bytes of a resumable upload are staged on the volume of their target:
--   route/v2/tus_staging_root.go and route/v2/tus_routing_store.go (Staging), with the checks of
--   the metadata in route/v2/tus_file.go and route/v2/precheck_file.go (Staging.Metadata).
-- - The roots that a search may use are a table of service/rootgrants.go (RootGrants).
-- - Every operation on a path takes its lock in service/pathlock/pathlock.go (PathLock).
--   PathLock.Steps has the goroutines: each between acquire and release, the lock granted as
--   sync.RWMutex grants it.
-- - The records of the shared folders follow a folder that is deleted or moved:
--   service/shares.go (Shares).
--
-- How the code is modelled:
-- - Base and Text have the shared helpers: Boolean tests on the native numbers, loops over
--   lists, and Go strings as lists of bytes. Maps has Go maps as association lists. FilePath has
--   filepath.Clean and filepath.Join of the Go library.
-- - The database is the list of the rows of each table. A method of a store is a function of the
--   database to its result and the database after it, named as in the source. Each SQL statement
--   is one function of Upload.Statements. Any statement may fail: a list of faults says which of
--   the statements to come do, and the theorems hold for every such list unless they say
--   otherwise. A transaction rolls back what its body wrote.
-- - A handler of echo takes the header user_id, the path parameter and the body, which is absent
--   where Bind fails. The files that os.Remove is called on are part of a result that comes back
--   without an error.
-- - The package-level queue of file operations with its mutex is one record, and a whole call of
--   a function of the queue is one step; what happens between the critical sections of one call
--   is modelled for CancelAllOps alone (OpQueue.Between). storeFileProgress, which takes no lock
--   over its steps, reads and writes three states that may differ. What FileOperate tells at its
--   end is a list of events, each with the state of the queue at its moment; no other call comes
--   between them. Upload.Batches.History and OpQueue.Steps have the sequences of calls.
--   OpQueue.Polling is the pass of service/notify.go that retires finished tasks.
--
-- - The operating system is an interface, the record Files.FileSystem: an operation that may
--   fail takes its outcome from the state of the disks, and so does a context that is cancelled
--   meanwhile. What the theorems suppose of the system calls is the record Files.IsLawful, and
--   Files.Memory has an instance of it, a file system in memory. The ingest of an upload adds
--   the calls that it needs, Upload.Events.Ingest.UploadDisk with the laws IsUploadLawful, and
--   Upload.Events.Ingest.Memory is the instance.
--
-- - The four goroutines that take up the events of tusd are one sequence of events, which calls
--   of the batch store may come between (Upload.Events.Unsettled). The ingest of a file and the
--   writes behind it are one step.
--
-- - A download takes the answers of the cloud, the replies to its requests and the faults of its
--   file operations from lists of what is to come. Its files are those of the upgrade directory,
--   by their path in it. The size of a version is a natural number, and the progress, a
--   floating-point number, is left out, as is an address that http.NewRequest does not accept.
--
-- Outside the repository, and so parameters: tusd, whose events are data; SHA-256; the system
-- calls on files and the subprocess cp; Cancel of NimoOS-Common/upload, of which the theorems
-- that need it suppose that it writes to the task table alone (Upload.Sweeper.Round.OnlyTasks);
-- os.Stat; the mount table; the text of /proc/mounts; the random ids. The quota of an upload,
-- computed with floating-point numbers, is an argument. The current time is an argument.
--
-- Loops over rows and lists are structural recursion. The one bound is that of the chunks of
-- RemoveItems, the number of paths, of which each chunk takes at least one. The recursion of a
-- copy has a fuel: out of it, the model comes back with an error. Files.Height has that fuel
-- above a height changes nothing where some function of the directories falls from each to those
-- in it, whatever happens to the disks meanwhile. The search for a free name has one above the
-- number of the names that exist (Files.Naming.Candidates); resolveRenameTarget gives up by
-- itself after its attempts, 1000 in the source. Counters and times are natural numbers; no
-- counter of the modelled code comes near the bounds of its Go type, and times are seconds since
-- 1970.
--
-- Not modelled: the garbage collector of NimoOS-Common and its configuration in
-- service/upload/gc.go, the message that announces a created file, the sockets, the message bus,
-- the cloud drivers, the migrations, the information about the host, and the parts of the file
-- handlers that only read and write files.
pub mod Base
pub mod Text
pub mod Maps
pub mod FilePath
pub mod Upload
pub mod OpQueue
pub mod Access
pub mod RootGrants
pub mod Staging
pub mod PathLock
pub mod Shares
pub mod Files
pub mod Transfers
pub mod Peers
pub mod Updates

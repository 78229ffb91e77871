-- ===== src/Lib.antt =====
-- Verification of OmaCalendar, a desktop calendar with a background daemon. The daemon keeps
-- accounts, calendars, events, tasks, reminder jobs and notification records in one SQLite
-- database (src/core), exchanges them with providers (src/providers, src/sync), and tells the user
-- of reminders and invitations (src/reminders, src/daemon). Clients reach it over a local socket
-- (src/ipc, src/app, src/cli). Paths are from the root of the repository.
--
-- What is modelled, and where:
--
--   Sync/Retry: src/sync/retrypolicy.h and retrypolicy.cpp, `RetryPolicy`: `classify`,
--     `delayForAttempt` and `evaluate`, with the 64-bit mixing of the jitter.
--   Sync/Activity: src/sync/syncactivity.h and syncactivity.cpp, `SyncActivity`: the polling
--     interval, the lease of a client in use, and the triggers of an immediate sync. A call is a
--     `Call`, `step` is one call, `run` a sequence of calls at their times.
--   Sync/Chunks: src/sync/chunkedsyncapply.h and chunkedsyncapply.cpp, `ChunkedSyncApply::step`:
--     a request cut into turns. What happens in a turn (a refusal, a cancellation) is a `Turn`,
--     `run` a sequence of turns.
--   Database: the tables, the results and the change revision of src/core/database.cpp that its
--     children share.
--   Database/Reminders: the reminder deliveries (`claimReminderDelivery` to
--     `markReminderDelivered`, `dismissStaleReminders`, `dueReminders`). `step` and `run` are the
--     operations as calls.
--   Database/Notifications: the notification deliveries (`claimNotificationDelivery` to
--     `persistInvitationBaselines`). `deliver` is the operations as calls.
--   Database/Coverage: the ranges of a calendar that were synced completely
--     (`recordSyncCoverage`, `mergeSyncCoverageInternal`, `isSyncRangeCovered`, `syncCoverage`).
--   Sync/Coordinator: src/sync/synccoordinator.cpp: which provider serves an account
--     (`syncAccount`, `syncCalendar`, `providerForKind`), Hydration (`ensureRangeHydrated`),
--     Backfill (`runOlderHistoryBackfill`, with a `tick` of its timer; `rounds` is ticks in
--     sequence, and `backfills` of Fair the ticks over what the database holds at each).
--   Sync/Local: `LocalProvider::drain` of src/sync/localprovider.cpp, over the operations of
--     Database/Outbox.
--   Database/Outbox: the queue of mutations (`readyOutbox`, `outboxItems`,
--     `recoverExpiredOutbox`, `updateOutboxState`); Outbox/Complete has `completeOutboxInternal`,
--     Outbox/Discard `discardOutbox`, Outbox/Steps these as calls, with the statement by which
--     `resolveConflict` cancels the mutations of an event. Database/Transactions has the lemmas on
--     steps in a transaction.
--   Ipc: src/ipc: the messages of ipcprotocol.cpp. Ipc/Framing cuts bytes into frames
--     (`IpcServer::read`, `IpcClient::read`), Ipc/Router is requestrouter.cpp, Ipc/Server the rest
--     of `IpcServer::read` for one client, with `send`, `applySubscription`, `topicMatches` and
--     `broadcast`.
--   Scheduler: src/reminders/reminderscheduler.cpp over the database's operations: `checkNow`
--     and `deliver`, and in Scheduler/Results `onNotificationResult` with `finishDigestMembers`.
--   FreeBusy: `mergeBusyIntervals` of src/core/freebusy.cpp; FreeBusy/Events
--     `busyIntervalsFromEvents` (FreeBusy/Busy describes what it should find), FreeBusy/Slots
--     `nextFreeSlot`. The wall clock of a time zone is an argument.
--   Database/Tasks: the task store of src/core/databasetasks.cpp and `validateTask` of
--     src/core/tasks.cpp. Tasks/Lists has the task lists, Tasks/Local the writes of a client
--     (`saveLocalTask`, `removeLocalTask`), Tasks/Remote the provider's side (`applyRemoteTasks`,
--     `completeTaskWrite`); the parent has the rows and the queries. Tasks/Steps has the
--     operations as calls.
--
-- In each of these the parent module holds the definitions, and its children hold the proofs,
-- named for what they prove; `Tests` holds runs on concrete inputs. Base holds the helpers that
-- the components share: Boolean tests, lists, the selections, updates and deletions of a table,
-- sorting, times.
--
-- How the code is represented: a `QDateTime` is a `Stamp`, a number of milliseconds, or `none` for
-- an invalid time (an empty column). The empty text sorts before every time in SQL, and `stamp_le`
-- says so. The code compares the texts of `isoUtc`, which order as the times do. A table is a list
-- of its rows, and a statement a selection, an update or a deletion over that list. Whether the
-- k-th statement of an operation runs is an argument (`Sql`), so each error path is a value of
-- that argument. The text of JSON, the event records that an acknowledged or discarded mutation
-- writes (`upsertEventRecord`), and what a provider accepts are arguments. A handler of a request
-- is a function on a state of its own, which may also close the connection. SQLite, Qt and the
-- wall clock are not modelled: the time is an argument of each operation, as in the code where it
-- takes one, and in place of `nowUtc()` where it does not. An operation that returns false is a
-- `failed` result with the reason.
--
-- Loops are recursion on a list or a count, but for three: the 63 rounds that the loop of
-- `delayForAttempt` has itself; the loop of `nextFreeSlot`, which has one round more than the
-- milliseconds from the epoch to the horizon, enough since each round moves on to a later time;
-- and the loop over the frames of a buffer, which has the length of the buffer as fuel; each round
-- removes a byte at least, and the readers are proved to take every line of the buffer. The turns
-- of a chunked application are a list. Numbers are unbounded except where the code relies on a
-- width: the mixing of the jitter is modulo 2 ^ 64, and the `qint64` arithmetic of the jitter is
-- on 64 bits and wraps around, where C++ leaves an overflow undefined.
--
-- Not modelled: the event tables and their migrations, the recurrence expansion, quick-add
-- parsing, the provider protocols and codecs, the sockets, the scan for invitations, D-Bus, the
-- daemon's wiring, the application and the command line. They are listed with the reason in the
-- manifest.
mod Base
pub mod Sync
pub mod Database
pub mod FreeBusy
pub mod Ipc
pub mod Scheduler

-- ===== src/Lib.antt =====
-- The factory: a control plane that hands Tasks to Workers, and the Workers that run coding agents on
-- them. This library models transactions of the control plane, the protocol between the two, and
-- parts of the Worker, and states what makes them correct.
-- Paths are from the repository's root.
--
-- The attempt store (Store, over Table and Service). One attempt is one run of an agent: a Worker
-- claims it, holds a lease on it, starts it, runs the stages of its session's Pipeline, sends the
-- events that it logs, and completes it; a sweep takes it back when the lease runs out. The state is
-- the database of the control plane, one record of tables (Store.Rows); a transaction is a function
-- from the database to a result, which is an error or the new database (Service: ServiceError, conflict,
-- invalid of factory/internal/controlplane/store.go). A transaction that returns an error is rolled
-- back, so the database is the one before. SQL statements are list functions (Table).
--   Store.States     the states of attempts, executions, sessions and stages
--                    (factory/internal/protocol/tasks.go, types.go)
--   Store.Lease      loadLease, verifyActiveLease, validateToken, updateRunLifecycle
--   Store.Cost       attemptCostColumns, stageCost.bound
--   Store.Start      StartAttempt, validCommitSHA
--   Store.Heartbeat  Heartbeat
--   Store.Stages     StartStage, CompleteStage (factory/internal/controlplane/stage_runs.go)
--   Store.Complete   CompleteAttempt up to its commit; Outcome settles what the completion becomes
--                    (attemptOutcome in factory/internal/controlplane/work.go), Sessions is the session
--                    that it leaves
--   Store.Sweep      SweepExpired
--   Store.Events     AppendEvents; Page is Events
--   Store.Fencing    the six calls by which a Worker drives an attempt, as one function;
--                    AppendAgentUpdate is not among them
--   Store.Lockstep   when an attempt, its execution and its session agree
--   Store.Steps      the history: each of the seven transactions above that change the database is a step
--                    where it succeeds, at any time, by anyone, in any order; the others that write
--                    attempts (claims, cancellations, the reports of an agent, retries, and the
--                    registration of a Worker) are no steps
-- Where no other file is named the code is in factory/internal/controlplane/state.go.
--
-- Cron schedules (Cron): factory/internal/controlplane/schedule_cron.go.
--   Cron.Text        what the parser uses of Go's strings and strconv
--   Cron.Field       parseCronField, parseCronValue; a result is a value, an error or a panic
--   Cron.Next        cronSchedule.matches, Next, over a calendar
-- The loop over an item's candidates has fuel `end + 1 - start`, and the search for the next minute has
-- `limit + 1 - candidate`: each turn uses one and moves on by one at least, so neither runs out early.
-- An int has 64 bits; the one sum that can exceed it, of a candidate and a step, says what happens then.
--
-- Planning checkpoints (Planning): factory/internal/controlplane/planning.go.
--   Planning.Keys    validPlanningCheckpointKey, validPlanningSlug, boundPlanningText
--   Planning.Edits   UpsertPlanningCheckpoint, SavePlanningAnswers, TransitionPlanningCheckpoint
--   Planning.History edits one after the other, a refused one without effect
--   Planning.Insert  InsertPlanningCheckpoint; its loop over three tables is Planning.Shift, with one turn
--                    for each number from the highest down
--   Planning.Split   normalizePlanningSplit; a stable sort by ordinals stands for sort.SliceStable
--   Planning.Replace ReplacePlanningPebbles, MarkPlanningPebbleBuilt
--   Planning.Pieces  the edits of the board one after the other
--
-- Review verdicts (Review): ParseReviewVerdict in factory/internal/protocol/tasks.go, which a Worker
-- applies to the result of a reviewing stage before it sends CompleteStage.
--
-- Automatic merges (Merge): factory/internal/controlplane. A merge comes after a Work has ended and changes
-- nothing of it. GitHub and net/url are parameters, and what is asked of GitHub is kept.
--   Merge            maybeAutoMerge in automerge.go, as a run that nothing overlaps
--   Merge.Passes     the same as runs that overlap: each query, call and transaction is a turn of its own,
--                    and Alone ties the two together
--   Merge.Rows       recordMerge, recordMergeRefusal, and ReviewVerdict in stage_runs.go
--   Merge.Request    parsePullRequestURL in github.go
--
-- The protocol of stages (Stage): factory/internal/protocol.
--   Stage            stage_kind.go and stage_execution.go
--   Stage.Report     stage_report.go, the checks that an agent reports at the end of its result
--
-- The Worker (Worker): factory/internal/worker. Its goroutines are interleaved: a step is what one of them
-- does under one hold of a mutex, or one operation on a channel.
--   Worker.Payload   eventPayload in events.go and boundedText in supervisor.go, over bytes
--   Worker.Sender    eventSender in events.go: enqueue, closeAndWait and the goroutine `run`
--   Worker.Manager   the shared state of the Worker (manager.go), and what its health and its registration
--                    do to it (registration.go)
--   Worker.Claiming  claiming.go: reserveAndClaim and the goroutines of claimOnce
-- The search for the longest payload has fuel one more than the distance of its bounds, which each turn
-- makes smaller by one at least. What an agent writes is bytes there, since it need not be UTF-8.
--
-- Choices. An identifier is a text that is only compared, and is a number. A time is a number of
-- milliseconds, and an addition of a lease's length to it does not come near 2^63. NULL is `none`. A
-- row has the columns that these operations read or write. The clock and SHA-256 (Env), the encoder of a
-- cost's models, JSON's validator (Json) and JSON's encoder and UTF-8 (Encoding) are parameters. A
-- database that cannot be reached (unavailable) is not modelled: the transaction has no effect then.
-- Not modelled: claims and the scheduling of work, the reports of an agent (AppendAgentUpdate), the
-- registration of a Worker in the control plane, resuming, recovery, HTTP, the Worker's
-- processes and files, the five-field form of a cron expression and the names of time zones, the
-- command line, the web pages and the release tools.
mod Prelude
pub mod Table
pub mod Service
pub mod Cron
pub mod Planning
pub mod Review
pub mod Stage
pub mod Merge
pub mod Worker
pub mod Store

-- ===== src/Lib.antt =====
-- Verification of PixelFlow's durable work: generation jobs, the runs of the harness sidecar, the
-- queue of long-term memory writes, the turns of a conversation, and the admission of new runs.
--
-- The program. A gateway (backend) accepts image and video jobs, stores them, and a worker starts
-- them at providers, polls them and projects their results into a workspace. Agent runs are executed
-- by a sidecar process (services/pixelflow-agent-harness), which stores runs and their public events
-- in SQLite and lets readers resume at a cursor; all gateways share one admission state that says
-- whether new runs may be created. Memory writes go through a queue with leases and manual review.
--
-- Jobs models backend/pixelflow/generation_jobs.
--   Jobs/Contracts     contracts.py: the record and `validate_status_contract`
--   Jobs/Repository    repository.py: `MemoryGenerationJobRepository`; Commands gathers its calls,
--                      Cases their outcomes, and Validity, Lifecycle, Leases, Idempotency and
--                      Reopening what they keep
--   Jobs/SqlRepository repository.py: `SQLGenerationJobRepository`; Agreement and Reopening
--                      compare it with the store in memory
--   Jobs/Credentials   credentials.py: `TransientGenerationJobCredentialStore`
--   Jobs/Providers     the provider port and the pure functions that read its answers
--   Jobs/Worker        worker.py: `run_once`, `_start`, `_poll` and what they call; Decisions says
--                      without state what is to be written, Start and Poll prove that this is done
-- Sidecar models services/pixelflow-agent-harness/src/pixelflow_harness_sidecar.
--   Sidecar/Rows       the tables and the enumerations of contracts.py
--   Sidecar/EventStore event_store.py: `SqliteRunEventStore`; Sequences, Replay, Operations and
--                      Recovery are about the numbering of events, repeated calls and restarts
--   Sidecar/RunService run_service.py: `_execute` and `_suspend`, with Settling, Execution and
--                      Outcome; Tasks has `create_run`, `activate_run` and `cancel_run`
-- Memory/Outbox models backend/pixelflow/long_term_memory/outbox.py: `SQLWriteOutbox` and the
--   `run_once` of `MemoryWriteWorker`; Leases, Submissions, and Schedules, in which a claim is its
--   read and its write.
-- ControlPlane models backend/pixelflow/agent_control_plane/persistence.
--   ControlPlane/Turns      repositories.py: the turns of `MemoryAgentRuntimeRepository`
--   ControlPlane/Compaction compaction_queue.py: `MemoryCompactionQueueRepository`, whose completion
--                      of turns and of compactions is in Handover, and in Closing where it ends with
--                      an event
--   ControlPlane/Events     repositories.py: the events of a conversation, whose delivery is in
--                      Delivery; workflows and summaries are in Records; Repository joins them all
--   ControlPlane/Changes    says what methods may do to the queue, Preservation what that keeps, and
--                      Effects, Operations and Endings prove it of each method; Requests, Progress,
--                      Ordering, Fencing and Repeats draw the consequences
--   ControlPlane/Orderly    says what the events keep; Deliveries, Transcript, Conversations, Pages
--                      and Reading prove it and what readers see; Calls joins queue and events
-- Harness/Admission models backend/pixelflow/agent_harness/admission.py; Races.
-- Base has what they share: tests, lists, texts, JSON, Python's dict, exceptions, and actions that
--   change a state and may raise. A module called Tests runs a component and applies its theorems.
--
-- How. Each method is a function from the state to its answer and the next state. A method is one
-- step, and concurrency is a sequence of steps of any workers: the stores in memory and the sidecar
-- hold a lock, and a transaction of the SQL job store is taken as one step. `SQLWriteOutbox` does
-- not lock what it reads, so that its claim is also modelled as two steps. Exceptions are values.
-- Times are natural numbers; the clock is an argument or a parameter. SHA-256, pydantic's treatment
-- of JSON, providers, the engine, the memory service and the workspace are parameters, seen through
-- the answers they give. Loops are recursion on their lists; `_project` recurs on the three
-- attempts it has, and `decimal` on one more step than the number has digits.
--
-- Not modelled: row locks and concurrent transactions, the SQL stores of the agent
-- control plane, background loops and their timing, logging, HTTP, the building of workspace
-- patches, the closing of the run service, and the other parts of the repository.
pub mod Base
pub mod Harness
pub mod ControlPlane
pub mod Jobs
pub mod Memory
pub mod Sidecar

-- ===== src/Lib.antt =====
-- Verification of the execution engine (execution_engine/), which takes applications to containers.
--
-- An execution is one piece of work with a state machine (CREATED, QUEUED, CLAIMED, STARTED, then
-- COMPLETED, FAILED or CANCELLED). The service registers and queues executions; workers claim them
-- from a repository, with a lease that runs out, and start and finish them; a retry worker puts
-- failed ones back; a status updater derives the status of deployments and applications from their
-- executions; a health checker watches the containers that were deployed. The domain service makes
-- applications and deployments of templates; the orchestrator turns the steps of a deployment into
-- executions on the nodes that the node manager selects; the executor has the runtime agent of the
-- node start the container. They share the database.
--
--   Prelude          tests on numbers and texts, lists, orders, rows with a key, searches in texts
--   Outcome          exceptions as values, methods that change a state and may raise
--                    (execution_engine/core/errors.py)
--   Time, Value      Python's datetime, naive or aware, in microseconds; JSON values
--   Execution        execution_engine/core/models.py: one function per method
--     Retry            which failures are transient, and the delay before a retry
--     Transitions      the methods together as one state machine
--   Validation       execution_engine/core/validation.py and factory.py
--   Repository       execution_engine/core/repository.py: the interface, as a record
--   Memory           execution_engine/infrastructure/memory/repository.py
--     Listing, Leases  its listing; recovery, and the service over it
--   Postgres         execution_engine/infrastructure/postgres/repository.py and models.py
--     Orm              the table, and how an execution becomes a row and back
--     Lease            claims and leases under any sequence of transactions
--     Listing, Queries  the query for the executions of a state, and its answer
--     Mapping          what the table gives back; optimistic locking
--   Events           execution_engine/core/events_model.py and events.py
--   Service          execution_engine/core/service.py, over any repository
--     Calls            its calls as data, over PostgreSQL
--     Emitting, Atomic, Accepted, Lifecycle, Reasons    what the calls do
--   Retries          execution_engine/executor/retry_service.py and run_retry_worker.py
--     Due, Never       over any repository and in memory; over PostgreSQL
--   Domain           execution_engine/domain/models.py, and in its children the repositories of
--                    applications, deployments and resources
--                    (execution_engine/infrastructure/postgres/domain_repository.py)
--   StatusUpdater    execution_engine/status_updater/updater.py
--   Slots            execution_engine/executor/slots.py and slot_manager.py
--     Counting, Refinement  the counter that the slots implement
--     Bags, Held       the executions that they hold after any requests
--   Executor         execution_engine/executor/executor.py: the main loop, over PostgreSQL
--     Thread           the thread of an execution
--     Taking, Finishing  what the loop takes; how a thread ends
--   HealthChecker    execution_engine/health_checker/checker.py
--     Probes           its checks over the network
--     Strikes, Portless  failures and restarts; checks without a port
--   Integers, Floats  whole numbers below zero too; floating-point numbers, as a parameter
--   Nodes            execution_engine/node_manager/models.py
--     Table            execution_engine/infrastructure/postgres/node_repository.py
--     Manager          execution_engine/node_manager/service.py
--     Selection, Upkeep  which node is selected; heartbeats and capacity
--   Templates        the templates of execution_engine/domain/models.py
--     Json, Reading    their JSON columns, written and read
--     Table            their repository (infrastructure/postgres/domain_repository.py)
--     RoundTrip, Storing  what is read of what was written
--   DomainService    execution_engine/domain/service.py
--     Inputs, Config, Operations  the validation, the configuration, the operations
--     Accepting, Applying, Deploying  what they accept and leave in the tables
--   Orchestrator     execution_engine/orchestrator/deployment_orchestrator.py
--     Memory, Steps, Starting, Waiting  amounts, the steps, the start, the wait
--     Frames, Marks, Outcomes  what a start changes
--     Configured, Queued, Delivery  the way from the domain service, to the executor, to the agent
--   RuntimeAgent     runtime_agent/server.py
--     Answers          how it answers a request to deploy
--     Client           runtime_agent/client.py and
--                      execution_engine/executor/runtime_executor.py
--   Examples         sample data, and the theorems at sample data
--
-- A method that changes an object or a table is a function from the state to the result and the
-- new state; an exception is a result too, and what was written before it stays written. Each
-- reading of the clock is an argument. A table is the list of its rows; a transaction that locks
-- its row before it tests it is one step, and what several workers do is a sequence of such steps.
-- A column of type DateTime has no time zone: an aware time that is written to it goes through the
-- parameter `local`, which stands for the database session, and comes back naive. `onupdate`
-- stands for the time that the database layer writes when a row changes, `probe` and `reply` for
-- what the network answers to the health checker, `deploy` for the deployment through a runtime
-- agent, and `text_of` and `uuid_text` for Python's `str` of an exception and of a UUID. Parameters
-- too are the operations on floating-point numbers, `int` and `float` of a text, regular
-- expressions, the json module, the HTTP clients and the Docker daemon. The loops are recursions on lists, but for the
-- orchestrator's wait for an execution: it runs on fuel, one unit for each turn, and half the timeout
-- in seconds plus two units are enough, since each turn sleeps two seconds. Numbers are unbounded, as
-- in Python; a UUID is a number. A row is refused if its key is there already, or if a row to which
-- one of its columns is a foreign key is not there.
--
-- Not modelled: the messages of exceptions where they are not stored, printing and logging,
-- signals and sleeping in the loops of the workers, failures of the database connection, the
-- interleavings of the executor's loop with its threads, the queries for the figures of a
-- node, the step executions, domains and databases of the domain
-- model (nothing uses them), and the HTTP interface, the migrations and the scripts (glue to
-- libraries, and data).
pub mod Prelude
pub mod Outcome
pub mod Time
pub mod Value
pub mod Execution
pub mod Repository
pub mod Memory
pub mod Events
pub mod Postgres
pub mod Service
pub mod Retries
pub mod Domain
pub mod StatusUpdater
pub mod Slots
pub mod HealthChecker
pub mod Executor
pub mod Validation
pub mod Floats
pub mod Nodes
pub mod Integers
pub mod Templates
pub mod DomainService
pub mod Orchestrator
pub mod RuntimeAgent
mod Examples

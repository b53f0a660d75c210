-- ===== src/Lib.antt =====
-- NodeConductor: the orchestrator of a home lab, and the restricted Agent that acts on Docker.
--
-- The backend (backend/src/nodeconductor) takes requests to start or stop a service, keeps them as
-- jobs in PostgreSQL, and runs them by workers. The Agent (agent/src/nodeconductor_agent) runs on
-- the Docker host: it lists the containers and Compose projects as typed resources, keeps a policy
-- for each in SQLite, and carries out the actions that the policies allow.
--
-- Base, Base.Tests, Base.Lists: shared names, Boolean tests, lists. Table: the statements on a
-- table that both databases use (SELECT ... WHERE, UPDATE ... WHERE, ORDER BY ... LIMIT 1), with
-- Table.Count, Table.Rows and Table.First on what they count, find and take; Table.Serial and
-- Table.Upsert: sequences and INSERT ... ON CONFLICT; Table.Ordered: ORDER BY and pages.
--
-- Backend.Schema: the rows of the tables services, targets, service_target_bindings, jobs and
-- events (infra/postgres/init/01_create_services.sql, schemas/), together the record Db.
-- Backend.Jobs: repositories/jobs_repository.py, one function per function, under the same names.
--   Valid, Insert: the invariant of the table and its preservation; Order: which job a claim takes;
--   Capacity: the limits; System: the transactions of all processes as the relations Step and
--   ManualStep, and their closures; Terminal: the life cycle of one job.
-- Backend.Executors, Backend.Worker: services/worker_executors.py and services/jobs_worker.py, with
--   record_event of services/events.py and update_service_status_row of
--   repositories/services_repository.py. Worker.Execution: the branches of a run.
-- Backend.Actions: services/jobs.py. Requests, Repeated, Cancel: what callers are promised.
--
-- Backend.Inventory: the collection of an inventory in services/agent_inventory_sync.py, from a
--   client that is a function of the call (Collected, Refused). Its pages are those of the Agent's
--   Agent.Inventory, whose `page_of` cuts them.
-- Backend.Written: transactions that PostgreSQL may refuse, chained by do blocks.
-- Backend.Targets: the tables of targets, members and issues, from
--   repositories/agent_inventory_repository.py, with the triggers of
--   repositories/services_repository.py (Members, Listing); Targets.Sync is
--   `synchronize_inventory_rows`, Targets.Contracts is repositories/worker_contracts_repository.py.
--   Applied, Found, Created: what each transaction has done, and one row followed through it;
--   Valid, Protection, System: what all transactions keep, in any order; Presence, Settled: the rows
--   after a synchronisation; Accepted: that no statement is refused.
-- Backend.Synchronization: the rest of services/agent_inventory_sync.py, from the contract of the
--   Agent to the events (Outcomes, Contract, Applied; Peer: with the answers of the real Agent).
-- Backend.Catalogue: the table of services in repositories/services_repository.py with
--   services/register.py, services/update.py and services/listing.py (Names, Changes, Listing).
-- Backend.Loop: the slots of services/worker_loop.py (Slots).
--
-- Agent.Schema: models.py. Agent.Journal: action_repository.py (Valid: its invariant; Replay:
--   repeated ids and restarts). Agent.Policies: policy_repository.py (Laws, Changes).
-- Agent.Aggregate: the state and the health of a project, from inventory_service.py.
-- Agent.Inventory: the rest of inventory_service.py (Build: how the list is built;
--   Sound, Complete, Pages, Update, Protected).
-- Agent.Actions: the decisions of action_service.py, with the errors of docker_gateway.py and
--   compose_runner.py; Actions.Leader: `_execute_leader`, step by step (Safety, Outcome, Once).
--   Actions.System, Called, Alone: the leaders of many requests, interleaved, as the relation Move.
-- Agent.Gateway: what docker_gateway.py reads of Docker's answers (Labels, Containers).
-- Agent.Status: health and capabilities. Agent.Registry: compose_registry.py (Fields, Allowed).
-- Agent.Middleware: middleware.py.
-- Backend.Middleware, Backend.Client: core/middleware.py and services/agent_client.py.
-- Backend.Tests and Agent.Tests: concrete tables, journals, stores and engines.
--
-- How the code is read. Each function of a repository is one transaction under its row locks, so
-- one function from the database to the database; the interleavings of several processes are the
-- orders of these steps. Where a service makes several transactions, what others do in between is
-- an argument (`meanwhile`) or the choice of the next step. The values of now() and uuid4() and the
-- readings of the monotonic clock are arguments; that a drawn UUID names no job yet is the
-- hypothesis `IsFresh`, under which the unique index on operation ids refuses nothing. Which texts
-- a VARCHAR(64) takes is an argument kept with the tables (`docker_id_fits`). `locked` says which rows FOR UPDATE SKIP LOCKED skips. The engine, the
-- registry, the runner and the SDK are met only through what they answer or raise, which is the
-- record `World` or an argument. Executors are functions, the way the code injects them.
--
-- Texts that are only compared are numbers (`Text`); error messages, whose length counts, are lists
-- of code points. Times are whole ticks, and `updated_at` and the like are kept as given. All
-- numbers are unbounded here: the code computes with Python integers and counts rows. All loops are
-- structural recursion on lists, the loop over the pages on the number of pages that are left, which
-- is the code's own bound, and the loop over the worker's slots on fuel, one round more than there
-- are slots, which is enough.
--
-- Not modelled: HTTP routing (api.py, api/routes, main.py, server.py), the transport of
-- agent_client.py, the reading of configuration, the event loop of worker_loop.py around its slots
-- (it waits, and on a stop waits for the tasks), the set-up of the tables, the reading of the file
-- of Compose projects before its tables, the texts of states, names and versions in Docker's
-- answers, the listing of events, the waiting of followers in ActionService.execute (they only read
-- the journal), and every text that only renders a code (messages of events, of exceptions and of
-- results).
pub mod Base
pub mod Table
pub mod Backend
pub mod Agent

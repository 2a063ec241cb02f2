-- ===== src/Lib.antt =====
-- A verification library for the inference server and its workers: how model instances are placed on
-- GPUs, how deployments are scaled, how workers register, report and carry out commands, how the
-- gateway chooses an instance and guards where a request goes, and how usage is counted.
--
-- Parts, by file (paths from the repository's root):
--   Base           shared helpers: Boolean tests, lists, integers, text as code points, calls that
--                  may raise (`Result`), sorting, lists with distinct keys, dicts as item lists.
--   Models         the rows that the services read (server/inferna_server/models.py) and the settings
--                  of the port ranges (server/inferna_server/config.py).
--   Scheduler      server/inferna_server/services/scheduler.py. The root module has the queries, the
--                  usage dict and the port allocation; Auto is allocate_auto, Manual allocate_manual,
--                  Replicas allocate_replicas with its best-fit passes, Parallel
--                  allocate_parallel_replicas and rendezvous_host. The children hold the proofs.
--   Scaling        server/inferna_server/services/scaling.py. The root module has the replica units
--                  and the stop of a unit, Apply is apply_scale on top of the scheduler; the other
--                  children hold the proofs.
--   PrefixCache    server/inferna_server/services/prefix_cache.py: blocks and the methods of
--                  PrefixCacheIndex; Blocks, Residency, History and Choice hold the proofs.
--   Usage          server/inferna_server/services/usage.py: record_request, the steps of flush_usage,
--                  usage_today, check_quota; Occupancy has sample_occupancy.
--   Autoscaling    server/inferna_server/services/autoscaling.py: desired_replicas, _unit_count and
--                  the body of autoscale_tick's loop, which calls apply_scale; what a scale that
--                  fails leaves in the session is failed_scale in Scaling/Apply.
--   Gateway        server/inferna_server/api/gateway.py: the critical section of _resolve_target, which
--                  chooses an instance and takes a slot of it, and _release_instance; Target is the
--                  whole of _resolve_target, with the guard and the release on failure.
--   Upstream       server/inferna_server/services/upstream_guard.py: the hosts and addresses that the
--                  gateway may connect to. Parsers of addresses, networks and URLs and the name
--                  service are a record of functions, of which nothing is assumed.
--   Workers        server/inferna_server/services/workers_svc.py: mark_disconnected, and in
--                  Sync sync_worker with its commands, which Engine carries out.
--                  Workers/Register is register_worker, with the unique constraints of the table as
--                  the test of its commit. Workers/Config builds the configuration of a start command.
--   Engine         worker/inferna_worker/engines/base.py: the command line of an engine container.
--                  Engine/Manager has the commands of InstanceManager in
--                  worker/inferna_worker/engines/manager.py (_start_sync, _stop_sync, _delete_sync),
--                  Engine/Reconcile its batches and reports (reconcile, _apply_batch, statuses),
--                  Engine/Probes _health_probe and _follower_probe, with what a round of the loop sees
--                  as a parameter and the rounds as fuel: 241 are enough for a health probe.
--   Instances      server/inferna_server/api/instances.py: deploy, stop_instance, restart_instance and
--                  delete_instance on tables of their own, with the commit as the last step, and the
--                  checks of the request schema (server/inferna_server/schemas.py).
--   Tests          concrete inputs: definitions evaluated, and the theorems applied.
--
-- How state is modelled. A query reads a `Db` of workers and instances; the row locks of the program
-- serialise the calls, so each call works on one `Db`. apply_scale changes its own deployment, whose
-- rows the session flushes before each query: `seen` is the database with them. An HTTPException is a
-- value of `AllocError`, one constructor for each of the messages. Ids are numbers; the ids that a
-- call draws are a function `uuid4` of the draw, the readings of a clock a function `clock` of the
-- reading, and a digest a function `sha` of the text. Rows that the program orders by name are sorted
-- by code points. Text is a list of code points; CHECK constraints on a column are data types. Times,
-- seconds, milliseconds and memory are whole numbers; where the program compares floats, the model
-- compares whole numbers of one unit.
--
-- Loops are structural recursion, except the loop of `blocks`, which has the text's length as fuel:
-- each round takes at least one character, and the loops of the probes, which have rounds as fuel.
-- Reading a number's digits has the number as fuel.
--
-- The steps of a flush of usage are separate events, since requests are recorded while it waits for
-- the database; the state names its aggregates. The row of a usage table is an entry of a list with
-- one entry for each key, as the UNIQUE constraint demands.
--
-- The Docker daemon is a record of calls on a state of its own, each of which returns a value or an
-- exception; nothing is assumed of it. The records of the instances are a dict with the ids as keys.
--
-- Not modelled: the other HTTP routes, the gateway's proxying and streams, the seed of the catalog,
-- authentication, metrics and logs, the gRPC transport, migrations, the benchmark tool, the scripts
-- and the frontend. Of the prefix index, prompt_text, which flattens JSON values, and hit_ratio, a
-- quotient for a dashboard; of the usage service, the endless loop and the clock; of the autoscaler,
-- the reading of the metrics registry and the commit of what a failed scale left behind; of
-- sync_worker, the IntegrityError of its commit; of the name service, exceptions other than
-- socket.gaierror; of the engine manager, the mock mode, the adoption of containers at start-up and
-- the shutdown.
pub mod Base
pub mod Models
pub mod Scheduler
pub mod Scaling
pub mod PrefixCache
pub mod Usage
pub mod Autoscaling
pub mod Gateway
pub mod Workers
pub mod Engine
pub mod Upstream
pub mod Instances
pub mod Tests

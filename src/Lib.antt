-- ===== src/Lib.antt =====
-- A model of the back end of botloader: the scheduler (cmd/scheduler), which receives the events of all
-- Discord guilds and runs their scripts on a pool of VM worker processes, with the broker that sends it
-- the events, the worker processes and their machines, the checks and limits on what the scripts do, and
-- the sessions and the log stream of the web API.
--
-- The parts and how they interact:
--   GuildScheduler   cmd/scheduler/src/scheduler.rs (`Scheduler`, `GuildSuspension`) with the handle
--                    and the commands of cmd/scheduler/src/guild_handler.rs: starts one handler for
--                    each guild, forwards events to it, keeps those that come while it shuts down,
--                    suspends guilds, and shuts everything down.
--   VmSession        cmd/scheduler/src/vm_session.rs: what a guild's handler does with its worker: the
--                    acknowledgements, the claim of a worker, the dispatch of events, the actions and
--                    the shutdown (Actions).
--   GuildHandler     cmd/scheduler/src/guild_handler.rs: the loop of a guild's handler over the actions of
--                    its session and the commands of the scheduler, and the guild's premium tier.
--   WorkerPool       cmd/scheduler/src/vmworkerpool.rs (`VmWorkerPool`): the idle workers and the
--                    requests that wait, in three tiers; Fleet adds the processes and the channels
--                    around the pool as a step function on events.
--   IntervalTimers   cmd/scheduler/src/interval_timer_manager.rs.
--   ScheduledTasks   cmd/scheduler/src/scheduled_task_manager.rs.
--   Commands         the pure functions of cmd/scheduler/src/command_manager.rs that build and merge
--                    the Discord commands of a guild's scripts, with the conversions of
--                    components/runtime-models/src/internal/script.rs.
--   CommandQueue     `Manager` of the same file: which guilds have to be checked, and the cache of what
--                    was sent to Discord.
--   DiscordBroker    cmd/discordbroker/src/broker.rs: passes the gateway's events on to the scheduler and
--                    keeps them while there is none.
--   BrokerClient     cmd/scheduler/src/broker_client.rs: the scheduler's end of the connection to the broker.
--   Framing          components/simpleproto/src/lib.rs: the messages between the processes as frames of
--                    bytes.
--   VmWorker         cmd/vmworker/src/main.rs: runs the scripts of one guild at a time and answers the
--                    session's messages.
--   VmThread         components/vmthread/src/lib.rs: the thread that polls the machines of a worker;
--                    Machine has the shutdown of a machine, from components/vm/src/vm.rs.
--   VmScripts        components/vm/src/lib.rs, moduleloader.rs and the commands and the loop of
--                    components/vm/src/vm.rs: the scripts of a machine and how they are run again.
--   Validation       components/validation/src: the checks on the commands, scripts and plugins of a guild.
--   Runtime          components/runtime/src/limits.rs with extensions/storage.rs and extensions/tasks.rs:
--                    the limits on the storage and the tasks of a guild.
--   WebSessions      components/stores/src/inmemory/web.rs (sessions, tokens), components/discordoauthwrapper
--                    (Client: the API client that refreshes its token, and its cache; the guilds that
--                    twilight_api_provider.rs gives are in Requests), and the requests
--                    of cmd/webapi that are about sessions (Requests: routes/auth.rs,
--                    routes/sessions.rs, middlewares/mw_session.rs and guild.rs).
--   WebSocket        cmd/webapi/src/routes/ws.rs: the connection over which a user reads guilds' logs.
--   Prelude          Boolean tests, lists and association lists for hash maps.
-- A session claims and returns workers through the pool, tells its timer managers of messages of its
-- worker, and sends the commands of a script that started to the store; its handler reports a forced
-- shutdown to the scheduler. The worker's messages are the session's own types, and VmWorker/Handoff
-- runs both sides: what the worker sends when its machine ends is what the session then reads.
-- VmScripts/Handback runs all three, the machine's loop, the worker and the session. The
-- thread's polls use the scheduler's way of taking finished entries out of a list. A request to the web
-- API goes through the session middleware to its handler; the guilds' routes ask the user's API client.
-- Functions have the source's names; state is passed explicitly, `none` stands for a panic (or, where the
-- file says so, for a wait that does not end), and each `await` that another task can interrupt is the
-- boundary between two functions.
--
-- Bounds and fuel: the ids of workers and of session events wrap at 2 ^ 64, as the release build
-- does. Times are natural numbers (milliseconds, in the pool nanoseconds) and a clock is an argument. The
-- loop of `dispatch_worker_evt` runs for two rounds more than there are offers of workers: each round
-- but the first takes an offer or waits for one. The reader of frames runs for one round more than its
-- stream has bytes: each round but the last takes four of them. A machine's loop runs over the list of its
-- polls. Loops that retry an operation of a store or a call of Discord's API run over the list of its
-- answers, and the ones that look for an unused random token over the list of the generated ones.
--
-- Not modelled: the stores, the channels and sockets, process management, the cron crate, Unicode's
-- tables, serialization and the readings of the clock are arguments of the functions that use them;
-- metrics and logs are left out, but for the logs of the scheduler that say that a guild stays
-- suspended. The compiler and the JavaScript engine are arguments of a machine, and so is whether
-- the heap's limit handler or the checker of runaway scripts, on another thread, stops it during a poll of its
-- thread. The list of a user's guilds that a Discord client keeps for ten seconds is an argument with its age,
-- since other requests of the user renew it; an entry of a guild's log names a guild of its own, and
-- neither the web API nor the model compares it with that of the stream. The stores over Postgres
-- (components/stores/src/postgres) are SQL; sessions are kept in the in-memory store instead. The other
-- routes of the web API, the jobs and the tools (cmd/webapi, cmd/jobs, cmd/blcmd, cmd/dbserver) are
-- glue around the stores and HTTP, and components/runtime-models converts records one to one.
pub mod Prelude
pub mod WorkerPool
pub mod GuildScheduler
pub mod Commands
pub mod ScheduledTasks
pub mod IntervalTimers
pub mod VmSession
pub mod GuildHandler
pub mod VmWorker
pub mod BrokerClient
pub mod CommandQueue
pub mod DiscordBroker
pub mod Framing
pub mod VmThread
pub mod VmScripts
pub mod Validation
pub mod Runtime
pub mod WebSessions
pub mod WebSocket

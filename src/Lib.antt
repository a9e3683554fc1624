-- ===== src/Lib.antt =====
-- hkp-node runs boards: pipelines of services that a browser, a coordinator or another runtime feeds.
-- This library models parts of the server (src/*.ts) and of its services (src/services/*.ts).
--
-- The files and the code they are about:
--   Shared            Booleans, lists, maps in insertion order (JavaScript's `Map`), tables and JSON values.
--   Server/Auth       src/auth.ts: identities, the email allowlist, and what a token resolves to.
--   Server/WsTickets  src/wsTickets.ts: the tickets that open a WebSocket.
--   Server/Mounts     src/mounts.ts: the claims of services to public addresses.
--   Coordinator/BinaryFrame  src/coordinator/binaryFrame.ts: a value of bytes as one frame.
--   Coordinator/Members      src/coordinator/members.ts: a board's members and what they may act on.
--   Coordinator/Board        src/coordinator/types.ts: the runtimes and services of a board.
--   Coordinator/FacadeAccess src/coordinator/facadeAccess.ts: which runtime has a facade's service, the
--                            facade as a member is shown it (Showing) and what of a value its paths
--                            read (Projecting).
--   Coordinator/Participants src/coordinator/participants.ts: the tickets of runtime servers
--                            (Operations), their connections (Connections) and the requests that they
--                            answer (Requests). Histories has what happens to a registry as events.
--   Coordinator/Session      src/coordinator/session.ts: the state and the status of a board's session,
--                            starting, stopping, joins and leaves (Lifecycle), the same as events
--                            (Events), what browsers ask for (Processing) and hear (Notifications).
--   Coordinator/Routing      src/coordinator/session.ts, routeResult and nextRuntime.
--   Coordinator/MemberRate   src/coordinator/session.ts, overMemberRate and what evictMember forgets.
--   Runtime/Context   src/runtime.ts: who a run acts for, over clients, links and nested runs.
--   Runtime/Pipeline  src/runtime.ts, HostedRuntime: the order of services and a call through them.
--   Runtime/Registry  src/runtime.ts, RuntimeApp: the runtimes of a server by space and id.
--   Services/Queue    src/services/queue-store.ts: publish, consume, close and list on one table of
--                     rows (Queue/Rows has the SQL statements as functions).
--   Services/Spread   src/services/spread.ts: an array goes on as parts.
--   Services/Gather   src/services/gather.ts: the parts of a group are put together again.
--   Services/Conversations   src/services/conversations.ts: mail in threads, their states and artifacts,
--                     on three tables: their rows and statements (Rows), what is read of values (Values),
--                     the configuration (Settings), ingest (Filing), the other modes (Workflow) and
--                     process (Processing). Statements has what a pass does to the tables as steps.
--   Services/Databases       src/services/database.ts: the names, keys and files of databases.
--   Services/Hold     src/services/hold.ts: a value kept between calls, in a slot or by property.
--   Tests             the theorems at concrete inputs.
-- A component's child modules hold its proofs and are named for what they prove.
--
-- State is passed explicitly: each operation takes the component's record and returns the new one with
-- what the call answers, logs or notifies. The clock's readings, drawn ids and random texts are
-- arguments of the operation that draws them. What is not in the repository is a parameter: JSON, the
-- lengths of texts, `trim` and `toLowerCase`, the check of a token's signature, SQLite's order of texts,
-- ISO dates, the splitting of texts; so is a service, which is given by what a call makes of a value.
-- Loops are structural recursion on what they run over; only a result on its way along a board runs on
-- fuel, and one unit for each runtime and one more is enough. Numbers are ℕ, since the counters,
-- lengths and times of this code are whole numbers below 2 ^ 53.
--
-- A session asks the registry of participants who is connected, and its runtime servers to build, describe
-- and remove runtimes: both stand as functions that an operation is given, so that they may differ at every
-- step. The queue of a session runs its operations one at a time, so each is one step here; a server that
-- goes in the middle of one shows as a request that failed. Member requests meet the facade's targets, the
-- rate of members and the session's state in that order, as in serveProcessRequest.
--
-- Not modelled: the HTTP and WebSocket wiring (src/server.ts, src/index.ts), the other services that
-- talk to servers, files or databases, the snapshots that browsers are sent and what a facade names, the
-- hand-out of mount addresses, and the links and stores of the coordinator.
pub mod Shared
pub mod Coordinator
pub mod Runtime
pub mod Server
pub mod Services
pub mod Tests

-- ===== src/Lib.antt =====
-- Verification of the kergit server: the core of a chat and voice server, in C++.
--
-- Clients connect by WebSocket. A network thread owns its connections (net/connection), hands what
-- they send to the inbound queue (app/queue), from which worker threads take it, and sends what the
-- services push into its outbound queue (net/outbound). The services keep who is online
-- (app/managers/session), who receives which events (app/managers/subscription), who is in which
-- voice room (app/services/voice), which media server holds the room (livekit/routing) and which
-- messages still go to the database (app/services/message). The hubs, their channels and their
-- members are in the database (infra/persistence), which the hub service reads through two caches
-- (app/services/hub). This library models these parts, one module each.
--
-- Base holds what the parts share: Boolean tests and decidable keys (Base/Tests), lists measured by
-- native numbers (Base/Lists), `std::unordered_map` as an association list with its find, size and
-- count laws (Base/Map, Base/Map/Entries, Base/Map/Tally), what SQL selects and deletes from such a
-- map taken as a table (Base/Map/Table, Base/Map/Select), and tables of tables that are kept free
-- of empty rows (Base/Nested). Ids is domains/ids/Ids.h.
--
-- EventQueue is app/queue/EventQueue.h, EventQueue/Msg is app/queue/Msg.h. Outbound/Msg,
-- Outbound/Queue, Outbound/Registry, Outbound/Outbox and Outbound/Worker are net/outbound/Msg.h,
-- net/outbound/OutgoingQueue.h, net/connection/ConnectionRegistery.{h,cpp} and
-- net/outbound/OutgoingWorker.cpp (enqueue_to_outbox in Outbox; send_payload,
-- flush_connection_outbox and on_ack in Worker; retransmit_sweep in Worker/Sweep; tick and
-- drain_queue in Worker/Tick), and Outbound/Heartbeat is net/runtime/HeartbeatService.{h,cpp}.
-- Session is app/managers/session/SessionManager.{h,cpp}, Subscription is
-- app/managers/subscription. Voice/Sessions and Voice/Evidence are VoiceSessionManager.{h,cpp} and
-- ReconcileEvidenceTracker.{h,cpp} of app/services/voice. Voice/Keys is ChannelKeyService.{h,cpp}
-- of that directory: its state and storage, its calls in Voice/Keys/Calls, encrypt_key_blob and
-- decrypt_key_blob in Voice/Keys/Blob; Voice/Resume and Voice/PendingJoin are
-- VoiceResumeRegistry.{h,cpp} and PendingJoinIntentStore.{h,cpp}. They stand on Livekit/Keys,
-- livekit/crypto/E2EEKeyManager.{h,cpp}, and on Redis, infra/redis/RedisClient.cpp, which takes
-- what becomes of each request as an argument. Hub/RolePolicy is app/services/hub/RolePolicy.h.
-- Livekit/Nodes is livekit/routing/LivekitNodeRegistry.{h,cpp}. Message/WriteQueue is
-- core/base/ThreadSafeQueue.h and app/services/message/DbWriteQueue.h.
--
-- Persistence/Transaction is infra/persistence/TransactionRunner.h, Cache is
-- core/cache/OnMemoryCache.{h,cpp}. Hub/Repository is the writes of
-- infra/persistence/repositories/HubRepository.cpp, Hub/Repository/Queries its reads, as functions
-- of three tables with the constraints and triggers of infra/persistence/sql/002_hubs.sql and
-- 003_channels.sql; a statement of SQL is the function of the tables that it denotes. Hub/Domain is
-- domains/Hub.h and domains/Channel.h, Hub/Names the conversions of role and channel type names. Of
-- app/services/hub, Hub/Service/Cache is HubCache.{h,cpp}, ChannelCache.h and HubSnapshot.h, and
-- HubService.cpp is Hub/Service (loadSnapshot, buildSnapshot), Hub/Service/Reads, Hub/Service/Batch
-- (getHubsByIds, getChannelsByIds, warmSnapshotsForHubs) and Hub/Service/Writes. The repository's
-- reads are taken to answer; its writes go through the transaction runner, which takes what happens
-- to each connection as an argument, and what PostgreSQL refuses beyond the constraints written out
-- (lengths, unique names, deleted profiles) is among it. Identifiers are in PostgreSQL's own
-- spelling.
--
-- A function has the name of the method that it models, in lower case with underscores, and takes
-- and returns the state of the object. A method that holds its lock from start to end is one step,
-- so an interleaving of threads is a list of calls, over which the theorems quantify; where a call
-- is more than one atomic step (Message/WriteQueue) the list is of those steps. HubService holds no
-- lock: a call on it is one step here, so a history of the hub service is one of calls that do not
-- overlap; finish_build is the last step of buildSnapshot alone. The hub cache keys its entries by
-- AnyKey of core/cache/AnyKey.h, a type and a hash, and std::hash is a field of the cache: two ids
-- with one hash share an entry, and InUse of Hub/Service/Coherent names the ids among which there
-- are none such. Errors and null pointers are `none`, or a constructor of a result type. Every loop
-- is structural recursion: on the queue, on the buffer, on the list of connections, or for
-- `drain_queue` on `max_per_tick`, its own bound. The retry loop of the transaction runner is on
-- fuel, two rounds, which is all that it can use, and the digits of a number n are on the fuel
-- n + 1.
--
-- Counters of a fixed width keep their wrap-around where a counter can reach it; sizes of
-- containers are natural numbers. Time points are natural numbers. Identifiers are strings. The
-- order of a hash map's entries stands for the unspecified order of iteration. The socket library,
-- the clock and the protobuf sequence stamp are the fields of a record, Transport, that the
-- definitions of the outbound worker and the heartbeat take as an argument; the bodies of protobuf
-- messages are a type parameter. OpenSSL is the record Crypto, and the rest of what a call on the
-- channel keys meets (the fresh key, the nonce, the replies of Redis, the LiveKit nodes and what
-- they answer, the clock) the record Meets. A JSON document is a map of its fields, and the JSON
-- library the record JsonLib.
--
-- Not modelled: metric counters other than the inbound queue's, logging, the copy-on-write sharing
-- of subscriber vectors and the sharing of node objects (both are values here), timers and their
-- start and stop, and the parts that mostly call other libraries: the WebSocket transport, the
-- connection pool, tokens, the HTTP and webhook servers, configuration. The other repositories, the
-- voice service, its reconciler, the services of messages, users, invites and presence, the commands and the dispatcher are not
-- modelled either.
pub mod Base
pub mod Ids
pub mod Cache
pub mod Persistence
pub mod EventQueue
pub mod Outbound
pub mod Session
pub mod Subscription
pub mod Voice
pub mod Hub
pub mod Livekit
pub mod Redis
pub mod Message

-- ===== src/Lib.antt =====
-- MQTT-CHAT: a chat whose clients send commands over MQTT to a worker, which is the authority. The
-- worker checks a command, changes the database in one transaction and leaves the canonical event in
-- an outbox, from which a publisher sends it to the clients; an HTTP API sets conversations up.
--
-- The parts, and the files that model them:
--   Contracts    packages/mqtt-contracts/src: topic names, command and event envelopes, payloads,
--                `buildEventEnvelope`.
--   Store        Rows: the tables of packages/database/prisma/schema.prisma. Prisma: the calls of the
--                Prisma client, a parameter (`Prisma`) with its documented laws (`IsPrisma`); `tables`
--                is a client that keeps them and runs. Order: ORDER BY, a parameter too. Redis: the
--                repositories of packages/redis/src/index.ts, over the commands of a Redis client.
--   Worker       apps/chat-worker/src. Context: the services as one value, `World`, and the outcome of
--                a handler, acknowledged or thrown. Messages (Send, Edit), Receipts, Reactions,
--                Presence, Typing and BotSend: the handlers of handlers/*.ts, each a function from the
--                world and a command to an outcome, with the checks and the transaction in the order
--                of the source. Dispatch: `ChatWorker.consume` of worker.ts. Outbox: `OutboxPublisher`
--                of outbox.ts.
--   Api          apps/api/src/controllers/chat.controller.ts: Create (`createConversation`), Members
--                (`addMembers`, `removeMember`, `deleteConversation`), History (`listMessages`), PairKey
--                (`directPairKeyFor` of packages/database/src/index.ts).
--   Bots         Value: the values of JavaScript that a rule meets. Conditions: packages/bot-rules/src
--                (condition-engine.ts). State: `BotStateRepository` of packages/redis/src/index.ts. Rules,
--                Engine and Events: apps/bot-worker/src/rule-engine.ts, what a rule and its context are,
--                the actions, and `processEvent` with the caches. Scheduler: scheduler.ts beside it. Sdk:
--                `Bot` of packages/bot-sdk/src/bot.ts.
--   Client       Watermark, Conversations, Snapshot, Normalize: packages/realtime-core/src, how a client
--                reads and merges receipts, conversations, messages and pages of history. Realtime: its
--                `ChatRealtimeClient`, the connection and what it publishes. Lifecycle, Rows
--                and Events: message-lifecycle.ts, message-rows.ts and conversation-events.ts under
--                apps/mobile/src/features. Web and Ephemeral: apps/web/src/store/chat-store.ts.
--   Notify       apps/notification-worker/src/index.ts.
--   Base         lists by Boolean tests, JavaScript's `encodeURIComponent` and its order of texts.
--   Tests        small databases and runs.
--
-- How the code is modelled. A table is the list of its rows. A transaction returns a new database, or
-- fails and changes nothing; the parts of a receipt's transaction, and the reads that an endpoint makes
-- before its transaction, take the database that they see as an argument of its own, so that others
-- can commit between. Where a handler reads before its transaction otherwise, no other command comes
-- between. The clock, random ids, the broker's answers and the locks of other workers are arguments
-- (`Env`, `Attempt`). A date is its number of milliseconds. A JSON value of a message's metadata is
-- kept as its text, and elsewhere as a tree (`Value`). The methods of the mobile message store wait for
-- a publish: such a method is a value (`Flight`), so that other calls can come between, and a run is a
-- list of events. An engine of rules answers with the effects that it has had, in order.
--
-- Parameters for what is not code of the repository: JavaScript's numbers (`Numbers`), regular
-- expressions and texts (`Language`, `Words`), dates (`Calendar`), `parseInt`; and for what the outside answers:
-- the broker, the database and the web to a rule (`Outside`) and to a job (`Answers`), the provider of
-- notifications (`Surroundings`).
--
-- Recursion is structural everywhere but in `read_back`, which reads a history page by page: its fuel
-- is a number of pages, and as many as the conversation has messages are enough.
--
-- What is not modelled: the parsing of JSON and the zod schemas (parameters), the MQTT client, logging,
-- timers other than as delays or events, the endpoints for users and presence, the status commands of the
-- bots, the gateway, the screens of the web and the mobile application and the sessions
-- that wire them.
pub mod Base
pub mod Contracts
pub mod Store
pub mod Worker
pub mod Api
pub mod Bots
pub mod Client
pub mod Notify
pub mod Tests

-- ===== src/Lib.antt =====
-- A model of the video calling server, with the theorems that make its parts correct.
--
-- The server is a NestJS application: a REST side for accounts and sessions, and a Socket.IO gateway
-- that signals calls, matches strangers and drives a media server. PostgreSQL keeps the accounts,
-- sessions, calls, contacts and the audit log, and Redis the queue of strangers. The gateway calls the
-- services of calls, matchmaking, contacts and media; all of them write the audit log. The browser side
-- keeps the tokens and calls the REST routes.
--
-- - Base: shared tests, lists as tables, association lists as maps, and their lemmas.
-- - Database: the tables of src/database/migrations as lists of rows, and errors as values. A service
--   method is a function from a state to a result and a state; a statement outside a transaction is
--   committed at once, so a throw keeps what was written before it.
-- - Samples: data for the tests.
-- - External: the hashes, the password meter and the signer of tokens, as parameters.
-- - Users: src/users (users.service.ts, repositories/user.repository.ts).
-- - Sessions: src/sessions, with the rotation of refresh tokens and the CSRF tokens.
-- - Auth: src/auth (auth.service.ts, guards, strategies/jwt.strategy.ts); Renewal has the login that is
--   followed by a refresh.
-- - Audit: src/audit (audit.service.ts, audit-event.enum.ts).
-- - Matchmaking: src/matchmaking/matchmaking.service.ts, on a queue and an index in Redis; Fifo has the
--   queue that it promises.
-- - Calls: src/calls (calls.service.ts, calls.repository.ts); History has the ordered pages.
-- - Contacts: src/contacts/contacts.service.ts.
-- - Sfu: src/sfu/sfu.service.ts, its workers, rooms, transports, producers and consumers.
-- - Gateway: src/gateway/signaling.gateway.ts: Connection, Calling, Matching and Media have its
--   handlers, which are chains of the operations of the services; Rooms, Strangers and Joining prove what
--   becomes of two strangers.
-- - Web: the REST side. Web has the exception filter and the response interceptor of src/common, Accounts
--   src/auth/auth.controller.ts, Address its resolveClientIp, Routes the controllers of calls and
--   contacts and every route behind its guard, Serving and Logins what the routes answer.
-- - Client: frontend/src/lib/api.ts (Api, Cookies) and frontend/src/hooks/useAuth.tsx (Session). The
--   server is a function from the requests so far to the last answer; Refreshing and SignIn put the
--   replies of Web in its place. Media is hooks/useMediaDevices.ts, with its tracks in
--   Tracks and Recording; Peer is hooks/useWebRTC.ts, with two sides in Handshake, Negotiation, Accepted and
--   Settling; ContactBook is hooks/useContacts.ts, AnonymousRoom app/anonymous/page.tsx and CallPage
--   app/call/page.tsx.
--
-- Definitions keep the source's names: `handleDisconnect` is `handle_disconnect`. Ids, digests, e-mail
-- addresses and other strings that are only compared are numbers, 0 being the empty string; texts that
-- the code takes apart are lists of code points. Times are milliseconds. Whatever is drawn or read from
-- a clock (ids, `Date.now()`, NOW()) is an argument. A handler or a service method runs to its end
-- before the next one starts, but `startMedia` and `handleContactResponse`, which are two steps each: up
-- to the request and after it. Rows that ORDER BY leaves tied are in the order of the table. A socket is
-- connected while the gateway holds its metadata. No definition uses fuel: all recursion is structural.
--
-- Not modelled: throttling, the validation of bodies, routing and cookies' parsing, which are packages;
-- the logger and the request log of src/common, the wiring of the modules and the configuration, the
-- client of Redis, the other pages and the components of the frontend and its hooks for signalling and
-- group media, the deployment files and the tests; failures of PostgreSQL, Redis and the media server
-- other than those that the code provokes; log lines; the frontend outside a browser.
pub mod Base
pub mod Database
pub mod External
pub mod Samples
pub mod Users
pub mod Sessions
pub mod Auth
pub mod Audit
pub mod Matchmaking
pub mod Calls
pub mod Contacts
pub mod Sfu
pub mod Gateway
pub mod Web
pub mod Client

-- ===== src/Lib.antt =====
-- The Go services of the repository, as definitions that follow their source, with what has been
-- proved of them.
--
-- The parts of the program. agent/backend keeps chat sessions and their messages in a bbolt file
-- and serves them over HTTP. agent/mcp-server lets a language model read a Kubernetes cluster by two
-- tools, over JSON-RPC. api keeps todos in MySQL and serves them over HTTP. keda/mcp-server gives a
-- model five tools on these todos, by calls of api, and on their priorities, which it keeps in Redis.
-- keda/websocket-gateway relays between browser tabs, Redis and these tools, which it calls by HTTP.
-- The worker in Python, the pages and the manifests are not modelled.
--
-- Prelude: texts as lists of code points, decimal numbers, lists, integers, sorted association
-- lists, and the sort by which sort.Slice is read. Json, Strings, Numbers, Http: what the program
-- uses of Go's encoding/json, strings, bytes, strconv and net/http.
--
-- Backend, for agent/backend:
--   Backend/Clock, Backend/Keys: nowRFC3339, newID, and the bucket keys of store.go.
--   Backend/Records: Session, Message, SessionDetail and their JSON; Backend/Codec reads it back.
--   Backend/Bolt: the interface of bbolt and its laws, a parameter; Backend/Memory meets them.
--     Backend/Opening: openStore.
--   Backend/Store: CreateSession, ListSessions, GetSession, ListMessages, AppendMessage,
--     DeleteSession. A method takes the database and gives the result with the database after it.
--     Its children have the effects of each method, the invariant `IsSound` (the messages of a
--     session are numbered without gaps, each under its key), and runs of many calls.
--     `update` is db.Update of bbolt, which drops the writes of a transaction that ends in an error.
--   Backend/Handlers: newMux and the handlers of handlers.go, from a request to a response.
--     Handlers/Contents, Handlers/Safety, Handlers/Limits: what responses say of the store, what
--     they leave of it, and the limit on bodies.
--   Backend/Tests: runs of the store and the handlers, and each theorem at an input.
--
-- Kube, for agent/mcp-server:
--   Kube/Kinds: kindAliases, clusterScopedKinds, canonicalToKubeKind, canonicalKind of k8s.go.
--   Kube/Objects, Kube/Summary: what is read of the API's objects, and their summaries.
--   Kube/Fetch: fetchOne, fetchList, relatedEvents over a client, which is a parameter. Each result
--     comes with the calls made to the API. The client can be asked for Secrets.
--   Kube/Tools: runK8sGet and runK8sDescribe. Kube/Catalog, Kube/Server, Kube/Mux:
--     server.go.
--   Kube/Secrets, Kube/Refusal, Kube/Access, Kube/Describe, Kube/Events, Kube/Listing, Kube/Tables:
--     the theorems.
--   Kube/Tests: a small cluster, and each theorem at an input.
--
-- Keda, for keda/mcp-server:
--   Keda/World: the API and Redis, a parameter with laws.
--   Keda/Tools: the five tools of tools.go, each from a state of the world to a result and the state
--     after it. Keda/Catalog, Keda/Server, Keda/Mux: server.go, with the envelopes of Kube/Server.
--   Keda/Steps: what a tool that succeeds has done. Keda/Merge, Keda/Priority, Keda/Delete,
--     Keda/Writes: the theorems. Keda/Hash: a hash in memory; Keda/Tests.
--
-- Gateway, for keda/websocket-gateway: Gateway/Hub is hub.go, Gateway/Events handleWS and
-- subscribeUpdates of main.go as events, one at a time in any order, with what each of them writes,
-- Gateway/Client callTool of mcpclient.go. Gateway/Delivery, Gateway/Fetch: the theorems.
-- Gateway/Tests: two tabs.
--
-- Api, for api:
--   Api/Todos: the todo, its JSON, and the table of the schema. Api/Sql: the statements, and the
--     interface of database/sql with MySQL behind it, a parameter with laws; Api/Memory meets them.
--   Api/Requests, Api/Handlers: the routes, bodies and handlers of api/main.go, from a request to a
--     response and the database after it.
--   Api/Spec: what each endpoint promises, as a relation between a request, its response and the
--     table before and after. Api/Rows, Api/Refines, Api/Changes, Api/Contract: that it is kept.
--     Api/Table, Api/Invariant: the table along many requests. Api/Up, Api/Answers: the API over a
--     database that answers.
--   Api/Logged, Api/Statements: the statements that a request sends. Api/Tests: a table of one row.
--
-- Startup, for the mains: Startup/Wait is waitReady of api/store.go and its two copies, Startup/Boot
-- the mains up to ListenAndServe, Startup/Shutdown the shutdown that they share, as a step relation.
-- Startup/Patience, Startup/Success, Startup/Serves, Startup/Draining, Startup/Ending: the theorems.
--
-- Exchange carries a request and its response between two services, and loses none of them.
-- System, for the services together: System/Over puts the handlers of api behind the HTTP client
-- of keda/mcp-server, and System/Rows, System/Listing, System/Live, System/Paths,
-- System/Patching, System/Marking, System/Completing, System/Deleting follow list_todos,
-- complete_todo and delete_todo through them. System/Tests: a run through all three.
--
-- Bounds. waitReady has its limit divided by its pause, and one turn more, as fuel; a turn that is
-- followed by another takes the pause at least, and Startup/Patience shows that it returns. The other
-- fuel is that of the decimal digits of a number, the number itself; it has no more
-- digits, and Prelude/Decimal shows that more fuel changes nothing. Message keys hold ten digits, so
-- what is shown of the order of messages counts at most 10^10 of them. A count is below 2^63 where
-- it is read back as a Go int. Restart counts are added with the wrap-around of int32.
--
-- Not modelled: concurrency inside one step (bbolt runs one writer at a time, and a method is one
-- transaction; the writes of a broadcast belong to its event; no other client writes to MySQL within
-- one request), the bytes of JSON documents (parameters `parse`, `first_value`, `first_document` and
-- `marshal`, and documents as trees), texts that are not valid UTF-8, headers, logs but those of
-- waitReady, the opening of files and listeners, the pool of connections, connections that a handler
-- has taken over from http.Server, the probes of the gateway's mux and the end of its subscription at
-- shutdown, and the redirects of net/http for paths that are not clean.
-- sort.Slice is an insertion sort, as it runs on at most twelve elements; on more, elements that are
-- not before one another may come in another order, of which no theorem speaks.
mod Prelude
pub mod Json
pub mod Strings
pub mod Http
pub mod Numbers
pub mod Backend
pub mod Kube
pub mod Keda
pub mod Exchange
pub mod Gateway
pub mod Api
pub mod Startup
pub mod System

-- ===== src/Lib.antt =====
-- A model of the Go programs geecache, geeweb, geerpc and geeorm, with the theorems about them.
--
-- The parts do not call one another, and share only the modules below Common:
-- Texts (a string is the list of its bytes), Maps (a Go map is an association list under the
-- library's `lookup`; the order of a `range` is the list's), Words (`int64` as its bit pattern with
-- wrap-around), Results (a value or an error's message), Options, Lists and Tests.
--
-- geecache, a distributed cache:
--   GeeCache/Lru.antt               geecache/lru/lru.go: New, Get, RemoveOldest, Add, Len. A list
--                                   element is a pointer into `heap`; the map and the list hold
--                                   pointers. The value's method Len is the parameter `size`.
--   GeeCache/Lru/Elements.antt      the elements of the list; Invariant.antt: the map, the list
--                                   and `nbytes` agree; Eviction.antt: the loop of Add;
--                                   Reads.antt: a Get behind a Get or an Add;
--                                   Spec.antt: a cache as its list of entries, the most recent
--                                   first; View.antt, Refinement.antt and Histories.antt: the code
--                                   implements it; Evictions.antt: OnEvicted;
--                                   Bounds.antt: the count of bytes.
--   GeeCache/ConsistentHash.antt    geecache/consistenthash/consistenthash.go, over any hash
--                                   function; Ring.antt: the ring and its lookups;
--                                   Removal.antt: Del; Growth.antt, Shrinkage.antt:
--                                   the keys that move with a node.
--   GeeCache/SingleFlight.antt      geecache/singleflight/singleflight.go as a step relation over
--                                   goroutines; Flights.antt: one flight for a key;
--                                   Results.antt: what Do returns.
--   GeeCache/Group.antt             geecache/geecache.go, cache.go, byteview.go; Loads.antt.
--   GeeCache/HttpPool.antt          geecache/http.go: Set, PickPeer, the getter's URL, ServeHTTP;
--                                   Peers.antt, Cached.antt. Getter.antt: Get of a getter, and
--                                   the pool as the `PeerPicker` of a group; Fallback.antt.
-- geeweb, a web framework:
--   GeeWeb/Trie.antt                geeweb/gee/trie.go; Insertion.antt.
--   GeeWeb/Router.antt              geeweb/gee/router.go; Depth.antt, Lookups.antt;
--                                   Handled.antt: every pattern has its handler.
--   GeeWeb/Engine.antt              geeweb/gee/gee.go: groups and the middlewares of a path;
--                                   Chains.antt. Engine/Serving.antt: ServeHTTP, with `handle` of
--                                   geeweb/gee/router.go; Answered.antt.
--   GeeWeb/Response.antt            geeweb/gee/context.go: the methods that read the request and
--                                   write the response; Statuses.antt.
--   GeeWeb/Static.antt              geeweb/gee/gee.go: GET, POST and Static; Routes.antt,
--                                   Files.antt.
--   GeeWeb/Context.antt             geeweb/gee/context.go: `Next`, with handlers as programs that may
--                                   call it, panic and recover, and Recovery of geeweb/gee/recovery.go;
--                                   Order.antt.
-- geerpc, remote procedure calls:
--   GeeRpc/Discovery.antt           geerpc/xclient/discovery.go, discovery_gee.go; RoundRobin.antt;
--                                   Refreshing.antt: Refresh with the registry's ServeHTTP.
--   GeeRpc/Registry.antt            geerpc/registry/registry.go; Alive.antt;
--                                   Heartbeat.antt: Heartbeat with its ticker, as a step relation;
--                                   Sweeps.antt, Listed.antt.
--   GeeRpc/Client.antt              geerpc/client/client.go with geerpc/common/common.go; what
--                                   runs under `mu` is one step. Completion.antt,
--                                   Histories.antt, Termination.antt. Client/Dialing.antt:
--                                   dialTimeout, NewClient, NewHTTPClient and XDial; Opening.antt.
--   GeeRpc/XClient.antt             geerpc/xclient/xclient.go over a discovery; Connections.antt:
--                                   the clients kept; Closing.antt, Broadcasts.antt.
--   GeeRpc/Server.antt              geerpc/server/server.go, geerpc/codec/codec.go; Dispatch.antt,
--                                   Connection.antt: the requests of a connection in turn;
--                                   Values.antt, Requests.antt: the values of a request,
--                                   `call` and its count.
--   GeeRpc/Serving.antt             `serverCodec` of geerpc/server/server.go with a goroutine for each
--                                   request, as a step relation; Owed.antt, Answers.antt,
--                                   Sequential.antt.
--   GeeRpc/Codec.antt               geerpc/codec/gob.go: Write, through its buffer.
--   GeeRpc/Upgrade.antt             geerpc/server/server.go: ServeHTTP and HandleHTTP, with the dial
--                                   over HTTP of geerpc/client/client.go; Dials.antt.
--   GeeRpc/Exchange.antt            a client and a server over one connection; Receiving.antt,
--                                   Issuing.antt, RoundTrip.antt.
--   GeeRpc/Handling.antt            `handleRequest` of geerpc/server/server.go with its goroutine and
--                                   its timeout, as a step relation; Responses.antt.
-- geeorm, an object-relational mapper:
--   GeeOrm/Clause.antt              geeorm/clause/clause.go, generator.go; Placeholders.antt.
--   GeeOrm/Engine.antt              geeorm/geeorm.go: Transaction, difference, with
--                                   geeorm/session/transaction.go; Outcomes.antt.
--   GeeOrm/Dialect.antt             geeorm/dialect: the types and tests of MySQL and SQLite.
--   GeeOrm/Schema.antt              geeorm/schema/schema.go; Columns.antt.
--   GeeOrm/Session.antt             geeorm/session: raw.go, table.go, record.go, hooks.go, over what a
--                                   database answers; Statements.antt: what each method sends;
--                                   Queries.antt, Inserts.antt.
--   GeeOrm/Migration.antt           geeorm/geeorm.go: NewEngine, Migrate; Steps.antt,
--                                   Effects.antt.
--   GeeOrm/Log.antt                 geeorm/log/log.go: SetLevel.
-- The Tests.antt of each part apply the theorems at concrete inputs.
--
-- Fuel: the loop of the LRU cache's Add takes one round for each entry and one to end; with a budget
-- that is not negative that is enough. `itoa` takes more rounds than its number has digits.
-- `Next` takes one for each handler and one to end.
-- All other functions recur on their data.
--
-- Not modelled: goroutines but those of singleflight, of a connection of the server, of Heartbeat
-- and of Broadcast (a group loads one key at a time, an HTTP server one request), network and
-- database I/O (what is answered is an argument), reflection (what it shows is an argument), gob,
-- protobuf and HTTP coding (parameters), templates, the file server and the logger of geeweb, the
-- log output, statuses that are not between 200 and 999, the debug page, the generated code and the
-- demonstration programs.
pub mod Common
pub mod GeeCache
pub mod GeeWeb
pub mod GeeRpc
pub mod GeeOrm

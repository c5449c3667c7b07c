-- ===== src/Lib.antt =====
-- A verification library for pulsys, a caching proxy and registry for model files, written in Go. It
-- models the data plane of the proxy: the HTTP/1.1 server that reads requests from a connection, the
-- gate that admits them, the cache from which it answers them, and the handler that asks the upstream.
--
-- How the parts work together. A connection's bytes are read by the request parser; the auth gate
-- admits each request; a GET of an artifact is looked up in the cache under a key, and answered from it
-- if the stored spans cover the wanted interval; all else goes to a fallback. The fallback is the
-- handler of the proxy: it routes a request to an upstream host that is allowed, looks it up in the cache
-- again, with aliases and redirects, and forwards a miss. Misses are fetched from upstream under an
-- interval that no one else is fetching; the segment that comes in goes to the client and to the disk,
-- and is recorded in the object's metadata, within a quota. Locations of redirects are rewritten so that
-- the client comes back to the proxy.
--
-- What models what:
--   Common        what the files share: tests on native numbers, lists, byte strings, signed integers
--                 with the wrap-around of int64, and what the program uses of strings and strconv.
--   Coreserver    internal/coreserver. Chars: validMethod, validHeaderName, trimSpace,
--                 asciiEqualFold and the like, and parseDecimalInt64. Request: Request and
--                 parseRequestLine. Parser: readRequest of server.go and parseRequestFromBuf of
--                 iouring_parser_linux.go. Heads: writeWarmHead200, writeStatus,
--                 renderAuthReject and the like. HeaderBuf: header_buf.go. Warm: tryServeWarm. Conn:
--                 serveConn.
--   Cache         internal/cache. Spans and Key: key.go. Ranges, Meta, Owners, Quota and Segment:
--                 ParseSingleRange, Meta, appendOwner, reserveQuota, and the checkpoint and commit of
--                 SegmentWriter, in store.go. Store: StoreAlias, StoreRedirect, PurgeOrTrim. Writer:
--                 BeginSegment and SegmentWriter with its reservation, and the diskTeeReader of
--                 internal/proxy/handler.go. Inflight: inflight.go. Lru: lru.go.
--   Auth          internal/auth/proxygate.go: PATGate. Roles: actor.go, rbac.go and ParseBearer. Csrf:
--                 csrf.go.
--   Hostallow     internal/hostallow/hostallow.go.
--   Rewrite       internal/rewrite/rewrite.go.
--   Proxy         internal/proxy/handler.go. Headers and Links: the headers that are kept, sent and
--                 relayed. Handler: Handler and its answers. Lookup: tryServeFromCache. Route:
--                 routeUpstream, the key and the alias path. Forward: forward, cacheRedirect and
--                 streamCacheable. Serve: ServeHTTP. ContentRange: util.go.
--   Models        internal/admin/models/cache.go and the purge of a model in
--                 internal/admin/api/handler.go.
--   Registry      the validators of internal/registry and internal/blobstore, and the request parsing of
--                 internal/proxy/registry_handler.go and upload_handler.go. CommitRetry: commitWithRetry.
--   Classify      internal/classify/classify.go.
--   Tests         concrete runs, and the theorems at concrete arguments.
--
-- State and operations. A byte string is a list of numbers. The connection is the list of the bytes that
-- the peer sends before it closes; reading passes on what is left. A bufio.Writer is the bytes written.
-- The set of intervals in flight, the bounded table and the quota counters are values that each operation
-- takes and returns, since the source guards each operation by a mutex or one compare-and-swap; for the
-- intervals in flight the callers' steps, in any order, are a relation. Machine integers wrap round where
-- the source computes with them. Errors are values of a result type.
--
-- Fuel. The depth of writeUint is 20, the digits of a 64-bit number. The loop of serveConn takes as
-- fuel a number of rounds; one more than the bytes of the connection is enough. The loop of
-- commitWithRetry counts its twelve attempts down.
--
-- A header set is a list of canonical names, each with its values. A store is the list of its objects'
-- metadata with the counters. One request to the handler is one function of the store: what other
-- requests did while it waited for an interval is the store in its claim. The body of a response is the
-- chunks that come in, with how many bytes of each the disk takes; the client takes all.
--
-- Parameters. SHA-256, Go's net/url and the test for private addresses, the upstream, the token store,
-- the auth gate of a server, the fallback, the store's lookup of metadata and whether an object's file
-- opens, and for commitWithRetry the context, CommitTx, the clock and the random numbers, are
-- arguments of the definitions. The fallback is supposed to leave at most as many bytes as it was
-- given.
--
-- Not modelled: deadlines, pools, counters of the telemetry, failing writes of metadata, the transfer of
-- a body by system calls and the io_uring reactor; white space and letters outside ASCII; the files of
-- the store; the memo of keys; the rest of the registry and upload handlers, the registry's tables, sessions
-- and sign-on, the importer and the rest of the admin API.
pub mod Auth
pub mod Cache
pub mod Classify
pub mod Common
pub mod Coreserver
pub mod Hostallow
pub mod Models
pub mod Proxy
pub mod Registry
pub mod Rewrite
pub mod Tests

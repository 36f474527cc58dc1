-- ===== src/Lib.antt =====
-- The distributed cache of mycorrhizal: the connections and the stream protocol of internal/nodosum,
-- the cache of internal/mycel, and how mycorrhizal.go puts a node together.
--
-- A node keeps named LRU buckets and an index from keys to their nodes. A key belongs to the nodes
-- with the highest rendezvous scores; a write goes to all of them and wants a majority, and a read
-- that misses asks the key's primary. Nodes talk in frames on QUIC streams: DATA frames carry the
-- broadcasts of the geo cache, REQUEST and RESPONSE frames the remote operations. Two background
-- tasks delete expired entries and move entries to their replicas.
--
-- Base: numbers, byte strings, maps, instants, results. A byte is a number; strings are byte lists.
-- Wire (internal/nodosum/quic.go, conn.go, application.go): `Encode` and `Decode` are the frame
--   encoders and decoders, `Stream` reads frames off a stream, which is the list of its bytes, and
--   `Loop` is `streamReadLoop` as the list of what it hands on. `Fits` bounds the texts by their
--   length fields. `Serve` are `handleRequest` and `handleResponse`, with the pending requests.
-- Lru (internal/mycel/ds.go): `lruBucket` as a doubly linked list on a heap; `Push` and `Delete`. The
--   predicate `IsBucket l h xs` says that the links hold exactly the nodes xs, in this order.
-- Cache (internal/mycel/cache.go, local.go, remote.go, task.go, rebalancer.go): `Local` are the
--   operations on a node's own entries, `Rendezvous` and `Routing` find the nodes of a key, `Remote`
--   and `Handler` are the two ends of a remote operation, `Replicated` the quorum writes, `Facade`
--   the interface `Cache`, `Abstract` a bucket as the list of its entries in the order of their use,
--   `Frame` what an operation on one bucket leaves alone, `Expiry` and `Rebalancer` the background
--   tasks, with `Swept` what a run of them leaves. `Holds c bucket b xs` says that a bucket is well
--   formed and that the index leads from its keys to its nodes.
-- Geo (internal/mycel/geo.go, geo_local.go, geo_remote.go, flush.go): the spatial index, its writes,
--   queries, replication and flush. `IsStore` says that the index agrees with the stored locations.
-- Metrics (internal/mycel/otel.go): the instruments, what a meter makes of them, and the operations of
--   Cache again with the measurements that they record. A measurement is a `Sample`; a list of them is
--   what an operation records, in order.
-- Net (internal/nodosum/nodosum.go, registry.go, memberlist.go, conn.go, application.go): `Nodosum` is
--   what a node knows of its connections, streams, failed dials and applications; connections and
--   streams are the numbers of handles. `Streams` and `Conns` register and close them, `Delegate` are
--   the callbacks of memberlist, with a dial as the gap between `begin_join` and `after_dial`, and
--   `Apps` are `RegisterApplication`, `Send` and `Request`. `Steps` lists the critical sections of a
--   node as the constructors of the relation `Step`, and `Reach` is any sequence of them. `Startup` is
--   `New` with its error paths, and what `Start` joins.
-- Setup (mycorrhizal.go, config.go, internal/mycel/mycel.go): the checks of `New`, the node that it
--   makes, and the topology hook, which joins Net to the routing of Cache.
-- Life (mycorrhizal.go, internal/mycel/mycel.go, internal/nodosum/nodosum.go): the first `Start` of a
--   node and the three functions `Ready`, as a relation between moments: the two goroutines of `Start`,
--   its own code and the owner of the context step in any order, and a `select` takes any case that is
--   there. `Stopping` is `Shutdown` with the count of its wait group.
--
-- State is passed explicitly. `Outcome` tells a call that returns from one that panics on a nil
-- pointer and from one that runs out of fuel. Fuel stands in four places. The walks over a bucket
-- take the first unused address, which is above the number of nodes of a well-formed bucket. The read
-- loop takes any fuel, and more than the stream has bytes is enough. The flood fill of the geo
-- queries takes any fuel, and as much as a closed set of cells has members is enough. The
-- retries of a dial take five, one for each failure that is counted.
--
-- Parameters: xxHash64 (`sum64`), the connected nodes (`nodes`), `app.Request` (`request`), gob
-- (`Codec`, `GeoCodec`), QUIC's new streams and writes (`Quic`), dialling and address resolution
-- (`dial`, `resolve`), the order in which answers arrive (`arrive`), geohash (`Geohash`), float64 and
-- math (`Floats`), the meter (`create`) and whether `newMetrics` succeeded (`metrics`), whether the
-- library calls of `nodosum.New` succeed and a QUIC transport's `Close` also closes the socket that it
-- was given (`Outside`), and the clock (`now`, `elapsed`; a received location takes a second reading,
-- `later`; `setLocal` reads the clock once more behind `setLocationLocal`, here both take one reading).
--
-- Not modelled: the QUIC library and its accept loops, memberlist itself, TLS and certificates, a
-- second `Start` of a node, the scheduler and the locks (an operation that holds a lock throughout is
-- one step, and in Net every critical section is a step of its own), log lines, the worker library
-- that schedules the background tasks, and the command of cmd, which does not build.
pub mod Base
pub mod Wire
pub mod Life
pub mod Lru
pub mod Cache
pub mod Geo
pub mod Metrics
pub mod Net
pub mod Setup

-- ===== src/Lib.antt =====
-- A peer-to-peer file sharing system: peers form a graph with measured latencies, route over it by
-- least latency, and keep the chunks of files, with a Bloom filter of what they hold.
--
-- Files and the code they model:
--   Routing/Types     internal/routing/types.go: GraphNode, GraphEdge, Graph, Route
--   Routing/Walks     the paths of a graph and their latencies, which the search is measured by
--   Routing/Cache     internal/routing/types.go: RouteCache and its methods
--   Routing/Dijkstra  internal/routing/dijkstra.go: dijkstra, with a function for each of its loops
--   Routing/Router    internal/routing/dijkstra.go: DijkstraRouter and CalculateRoute
--   Routing/Analyzer  internal/routing/graph.go: AnalyzeNetwork
--   Routing/Bottlenecks  internal/routing/graph.go: FindBottlenecks
--   Storage/Bloom     internal/storage/bloom.go: BloomFilter
--   Storage/Hash      internal/storage/hash.go: the SHA-256 text, chunk checks, the Merkle tree
--   Storage/Disk      the calls of package os that the chunk store makes
--   Storage/Chunk     internal/storage/chunk.go: ChunkStore
--   Storage/Manager   internal/storage/manager.go: StorageManager, and ChunkKey of bloom.go
--   Peer/Network      internal/peer/peer.go: NetworkGraph
--   Peer/Node         internal/peer/peer.go: PeerNode, but for ConnectToPeers
--   Peer/Connect      internal/peer/peer.go: ConnectToPeers, with the interleavings of its goroutines
--   Peer/Join         cmd/peer/main.go: registering, connecting, the first route
--   Peer/Print        internal/peer/peer.go: PrintGraph, as the lines that it prints
--   Benchmark         cmd/benchmark/main.go: createRandomGraph and the loop of route calculations
--   Bootstrap         cmd/bootstrap/main.go: BootstrapServer
--   Rpc               internal/network/grpc_server.go: the handlers of PeerGRPCServer
--   Float             float64 and package math, as a record of operations
--   Samples           data that the tests share
--   Prelude           library names passed on, Boolean tests, lists
--   Sort              what sort.Slice promises
--   GoMap, Word, Fmt  Go's maps, its int32, int64 and uint32, and the text of %d
--
-- The router reads a graph through the interface Graph and keeps its answers in the route cache. The
-- manager is the single entry to the chunk store and the filter: an upload splits a text into chunks,
-- which the store keeps in a map and on the disk, and adds their keys to the filter; a download from
-- another peer is checked against its hash first. A peer node holds its view of the network, the router
-- and the manager; the handlers of the peer service read and change them. A peer finds others through
-- the bootstrap server, and measures the latency to each in a goroutine of its own.
--
-- Numbers: an int32 is a number below 2 ^ 32 and an int64 one below 2 ^ 64, both in two's complement,
-- with sums that wrap; Word has the signed comparison. A byte is a number below 256, and a string or
-- a []byte a list of them. A Go map is an association list; the order in which the code ranges over
-- a map is an argument wherever it could matter, and the theorems hold for all orders. A method that
-- holds a lock from its first to its last access is one step. The clock is an argument.
--
-- Fuel: the main loop of the search has the number of nodes as its fuel, since each round removes one
-- node; the walk back to the source has one more, for the path has no node twice; the loop of the
-- Merkle tree has the number of hashes, since each round makes the level shorter. Fuel that runs out
-- is a result of its own, which the theorems exclude.
--
-- Concurrency: a goroutine of ConnectToPeers is the list of its steps, each under a lock; a run is any
-- interleaving of the goroutines. HasChunk reads the manager at two moments. A handler that takes
-- snapshots of the nodes and of the edges takes both of one graph. The peer over time is a step
-- relation (Rpc/Served) with the requests that it completes, those that touch the disk only where they
-- succeed.
--
-- Parameters: SHA-256; filepath.Join, which is assumed, where the disk is read back, to keep different
-- names in one directory apart; the identifier that package uuid makes, which directories can be
-- made and which writes fail on the disk; the operations of float64, of which only the range of int(x)
-- is assumed; the shuffle of math/rand, which is assumed to permute, and its Intn, which is assumed to
-- draw below its bound; sort.Slice, which is assumed to sort; whether a peer can be dialled and
-- how long its pings take; and the order in which a map is visited, which is assumed to be a
-- permutation of its entries.
--
-- Not modelled: log lines, printed statistics and formatted text but for PrintGraph, the texts of
-- errors, the flags, listeners and signals of the commands, the durations that cmd/benchmark measures,
-- and the generated code under proto.
pub mod Benchmark
pub mod Bootstrap
pub mod Float
pub mod Fmt
pub mod GoMap
pub mod Peer
pub mod Prelude
pub mod Routing
pub mod Rpc
pub mod Samples
pub mod Sort
pub mod Storage
pub mod Word

-- ===== src/Lib.antt =====
-- A model of ipfs-cluster, the coordinator of pins among a cluster of IPFS daemons, written in Go,
-- and what is proved of it.
--
-- The parts. A client asks a peer's cluster component (cluster.go) to pin a CID. It allocates the
-- pin to peers, by the metrics that the leader's monitor (peer_monitor.go) has logged from the
-- informers (informer/numpin) and the order that the allocator (allocator/numpinalloc) gives them,
-- and submits it to the consensus component (consensus.go, raft.go), which commits it to the log or
-- hands it to the leader. Applying a log operation (log_op.go) changes the shared state
-- (state/mapstate) and calls the pin tracker (map_pin_tracker.go) or the peer manager
-- (peer_manager.go) of each peer. The tracker asks its peer's IPFS daemon to pin and unpin, and
-- keeps a status per CID, through the IPFS connector (ipfs_http_connector.go), which also is a proxy
-- of the daemon. Clients use the REST API (rest_api.go); components and peers call each other by
-- the RPC API (rpc_api.go), in serial forms (api/types.go).
--
-- The files.
--   Common, External, Interfaces   Go's maps, results, integers and strings; the libraries that the
--                                  program calls, as records of functions; `State` of
--                                  ipfscluster.go, and the calls from the tracker to the daemon.
--   Api                            api/types.go.
--   Config, Util, PeerManager      config.go, util.go, peer_manager.go; Config.Files is what reads and
--                                  writes the configuration, and makes a new one.
--   Service                        ipfs-cluster-service/main.go: what its options do to the
--                                  configuration, and `initConfig`; Service.Running is `run`.
--   State, LogOp                   state/mapstate/map_state.go, log_op.go. State.Contents forgets the
--                                  order of the map.
--   Tracker                        map_pin_tracker.go: the private methods in Tracker, the exported
--                                  ones and the workers in Tracker.Workers; runs of both are
--                                  sequences of the calls of Tracker.Runs.
--   Monitor, Allocator, Informer   peer_monitor.go, allocator/numpinalloc/numpinalloc.go,
--                                  informer/numpin/numpin.go.
--   Ipfs                           ipfs_http_connector.go: the requests to the daemon in Ipfs and
--                                  Ipfs.Requests, the proxy in Ipfs.Proxy. Ipfs.Daemon states what
--                                  the API of a daemon documents; Ipfs.Tracked, Ipfs.Coherence,
--                                  Ipfs.Drained and Ipfs.Committed join the connector to the
--                                  tracker and the consensus.
--   Rest                           rest_api.go.
--   Ctl                            ipfs-cluster-ctl: the commands and their requests in Ctl (main.go),
--                                  what is printed in Ctl.Formatters (formatters.go).
--   Rpc                            rpc_api.go, by what a method reaches: the connector (Rpc.Local),
--                                  the tracker, the cluster, the other components.
--   Cluster                        cluster.go: Cluster.Allocate for `Pin`, `Unpin` and `allocate`,
--                                  Cluster.Global for `globalPinInfoCid` and `globalPinInfoSlice`,
--                                  Cluster.Queries for the methods over them, Cluster.Peers for
--                                  peers that are added, removed and join, Cluster.StateSync, and
--                                  Cluster.Lifecycle for the start and the shutdown;
--                                  Cluster.MultiRpc is `multiRPC`, and Cluster.Building what
--                                  builds a peer. Cluster.Pinning joins `Pin` to the consensus.
--   Consensus, Raft                consensus.go and raft.go; the peer set of Raft is in Consensus,
--                                  and `NewConsensus` and `NewRaft` are in the two Building.
--   Replica                        a peer as a state machine: its shared state, its tracker, its
--                                  daemon, and the calls that were started and have not run.
--                                  Replica.Shared is a cluster of such peers over one log.
--   Tests                          concrete inputs.
--
-- How the code is rendered. A method takes the state of its object and returns the new one beside
-- its result; what lies outside a component is a state `W` that the calls of it pass on, so that
-- the theorems hold of every behaviour of it. A method runs whole: the locks are not modelled, and
-- goroutines interleave between methods, as the steps of Tracker.Runs and Replica do, not within
-- them. A round of a worker takes a request; a worker that its context stops makes no more rounds. The
-- order in which the goroutines of `multiRPC` run is an argument. A Go map is an
-- association list and `range` goes through it in its order; the theorems hold of every list. A
-- Go `(T, error)` is a `Result`, an error its message, a panic `none` or a constructor of its own.
-- A channel with a buffer is the list of what is in it. `time.Now()` is an argument or is read from
-- `W`; a time is a number of nanoseconds.
--
-- Bounds. The retry loops make `commit_retries`, 2, rounds, and recursion is on that number; every
-- other loop goes through a list, or down from an index, but for the waits of raft.go, the loop of
-- `run` and those of `stateSyncWatcher` and `pushInformerMetrics`: these go on until something
-- outside changes, and run on fuel, of which one more than the number of rounds until then is
-- enough. Queues hold `pin_queue_size`, 1024,
-- requests, and the capacity of a monitor's queue is a parameter that is not negative.
--
-- Not modelled: the HTTP servers, the RPC service and the JSON forms around the handlers;
-- goroutines and methods that only wait or open a server (a component's `run`, `SetClient` of all but the
-- consensus); the declaration of the options and paths of the command under ipfs-cluster-service,
-- and the help texts of both commands; the interfaces of ipfscluster.go but for `State`, since what
-- uses them takes the operations that it calls; logging; a CID that is nil, on which the methods of
-- the CID library panic; a peer that stops and starts again. Raft,
-- libp2p, HTTP, files, the generation of keys, CIDs, multiaddresses, base64, sorting and the decimal
-- forms of numbers are parameters.
pub mod Common
pub mod External
pub mod Api
pub mod State
pub mod Interfaces
pub mod Config
pub mod Util
pub mod PeerManager
pub mod LogOp
pub mod Tracker
pub mod Monitor
pub mod Allocator
pub mod Informer
pub mod Service
pub mod Replica
pub mod Ctl
pub mod Ipfs
pub mod Raft
pub mod Rest
pub mod Rpc
pub mod Cluster
pub mod Consensus
pub mod Tests

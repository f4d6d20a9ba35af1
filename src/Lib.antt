-- ===== src/Lib.antt =====
-- Verification library of mx-chain-communication-go: the peer-to-peer messenger and the websocket
-- host of a MultiversX node.
--
-- The messenger joins a pubsub library and direct streams. A message from the pubsub library passes
-- the callback of p2p/libp2p/messagesHandler.go, a direct one p2p/libp2p/directSender.go and then
-- the same handler; both are converted by p2p/libp2p/message.go. Outgoing broadcasts pass through
-- the channels of p2p/libp2p/outgoingChannelLoadBalancer.go to the loop that publishes them.
-- Discoverers of p2p/libp2p/discovery look for peers from a list of seeders; the host asks a sharder
-- of p2p/libp2p/networksharding whether it may connect to one; preferred peers of p2p/peersHolder
-- are exempt, and p2p/rating ranks the peers by what they answered. The connections handler reports
-- on the connections. The websocket host exchanges payloads and acknowledgements by
-- websocket/transceiver.
--
-- Files:
--   Common, Common/*: library names passed on, tests, lists, maps, Go strings, numbers as decimal
--     text, binary digits, errors and panics as values, and integers over the native numbers.
--   Errors: the errors of p2p/errors.go.
--   Cacher: the interface of mx-chain-storage-go's caches, and its laws.
--   PeersHolder, PeersHolder/*: p2p/peersHolder/peersHolder.go. Registry has what the registering
--     calls keep, Removal what Remove does.
--   Sharding: p2p/libp2p/networksharding/listsSharder.go. Limits has the limits of a new sharder,
--     Eviction the eviction lists, Distance the two distances between peers, OneList the sharders
--     oneListSharder.go and nilListSharder.go, Admission
--     p2p/libp2p/discovery/hostWithConnectionManagement.go.
--   Rating: p2p/rating/peersRatingHandler.go. Tiers has its invariant, Ranking the stored ratings,
--     Selection the calls together and the choice of peers, Monitor peersRatingMonitor.go.
--   Message: p2p/libp2p/message.go, NewMessage.
--   MessagesHandler: p2p/libp2p/messagesHandler.go and topicProcessors.go, the registrations;
--     Delivery has the received messages and those sent to one peer, Topics the joined topics,
--     Registration the laws of the registrations, LastProcessor what follows when the last one
--     goes, Filtering what the callback passes on, Equivalent what it does with equivalent messages,
--     Direct the laws of direct messages, Broadcast the way out to a topic.
--   MessageVerifier: p2p/messageCheck/messageVerifier.go. Batches has lists of messages as bytes,
--     Signatures the messages that verify.
--   LoadBalancer: p2p/libp2p/outgoingChannelLoadBalancer.go. Order has its invariant, Channels what
--     the calls do, Names the set of names that it implements, Forwarding its goroutines as a step
--     relation.
--   DirectSender: p2p/libp2p/directSender.go. Streams has sequence numbers and connections,
--     Receiving the checks of a received message.
--   Websocket: websocket/transceiver/transceiver.go. Acknowledge has the invariant of the entries
--     that wait, Exchange a payload and its acknowledgement between two transceivers, Server
--     websocket/server/server.go and transceiversAndConnHolder.go, Client
--     websocket/client/client.go and websocket/connection/wsConnClient.go.
--   ConnectionMonitor: p2p/libp2p/connectionMonitor/libp2pConnectionMonitorSimple.go. Sweep has what
--     closing connections and the sweep do.
--   ConnectionsHandler: p2p/libp2p/connectionsHandler.go. Peers has the connected peers, Counts the
--     report by type and shard, Steps and Totals what it counts, Waiting the wait for connections,
--     Histogram the text of a counter by shard.
--   Discovery: p2p/libp2p/discovery. Continuous has the life of continuousKadDhtDiscoverer.go and
--     Seeders its loop over the seeders, Optimized the loop of optimizedKadDhtDiscoverer.go and
--     Loop its laws, Factory the choices of sharderFactory.go and peerDiscovererFactory.go.
--   Ports: p2p/libp2p/ports.go. Choice has which port is chosen, Text how a port is written.
--   PeersOnChannel: p2p/libp2p/peersOnChannel.go. Refresh has what a round leaves.
--   Metrics: p2p/libp2p/metrics/connections.go.
--   The Tests module of a part has its runs at concrete inputs.
--
-- Conventions: a Go name `computeEvictionList` is compute_eviction_list here. A call that holds its
-- lock throughout is one step from state to state. Where a call uses shared state twice without a
-- lock, and the order matters, what others do in between is an argument: the cache of equivalent
-- message ids in the pubsub callback, the load balancer in a broadcast. An error is a value of
-- Result, or an optional error beside the new state; a panic is a value of Outcome. Where Go iterates
-- over a map, the order is that of an argument or of the association list. A byte string is a list
-- of numbers.
--
-- Bounds: nearly all loops run over lists and are structural. The loop over the seeders runs on fuel,
-- and one attempt for each seeder is enough when some seeder accepts; decimal text is made on fuel
-- above the number. A sequence of timers, events or calls is a list. Ratings are int32 and
-- wrap as such; the sequence numbers and counters wrap at 2^64. Numbers of peers are native numbers,
-- and times and ratings are integers.
--
-- Not modelled: the goroutines that only log, the lengths of pauses, the wiring in
-- p2p/libp2p/netMessenger.go, the Kademlia table, crypto, and limits of resources other than the
-- greatest slice of ports. Third-party libraries (libp2p, pubsub, marshallers, caches, signers)
-- are parameters with named hypotheses.
pub mod Common
pub mod Errors
pub mod Cacher
pub mod PeersHolder
pub mod Sharding
pub mod Rating
pub mod Message
pub mod MessagesHandler
pub mod DirectSender
pub mod Websocket
pub mod LoadBalancer
pub mod ConnectionMonitor
pub mod MessageVerifier
pub mod ConnectionsHandler
pub mod Discovery
pub mod Ports
pub mod PeersOnChannel
pub mod Metrics

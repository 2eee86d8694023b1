-- ===== src/Lib.antt =====
-- A model of cnrlchain, an off-chain payment network for the ns-3 simulator, and what holds of it.
--
-- A node runs the application PaymentNetwork (model/payment-network.cc). It relays interests in
-- contents and the data that answers them from encounter to encounter, and it holds a
-- RoutingProtocol (model/offchain-routing.cc), an AODV-like protocol that finds routes for payments
-- by broadcast requests and opens payment channels to its neighbours by hellos. The protocol is made
-- of a routing table, a queue of packets that wait for a route, a cache of request ids, a detection
-- of duplicate packets and a table of the neighbours with their channels; its messages have headers
-- of their own. Each part is a module:
--
--   Base           numbers, tests, lists, ns-3's Time as a signed count, std::map with addresses as
--                  keys (Base/Map), machine words (Base/Word)
--   IdCache        model/offchain-id: IdCache; is_duplicate is IsDuplicate, purge is Purge
--   Dpd            model/offchain-dpd: DuplicatePacketDetection, by the id cache
--   RequestQueue   model/routemsg-queue: QueueEntry and RequestQueue; enqueue, dequeue,
--                  drop_packet_with_dst and find_dst are Enqueue, Dequeue, DropPacketWithDst and Find
--   Route          model/rtable: RoutingTableEntry with its Ipv4Route
--   Table          model/rtable: RoutingTable, one function per method; both Print are in Table/Print
--   Packet         model/payroute-packet: the headers and their flags; Packet/Codec has Serialize and
--                  Deserialize, Packet/Equality the comparisons, Packet/Print the Print methods
--   Neighbors      model/neighbors: Neighbor and Neighbors, one function per method; ProcessTxError is in
--                  Neighbors/Failure
--   Routing        model/offchain-routing: the constructor, SendHello and RecvHello; SendRequest is in
--                  Routing/Request, RecvRReq in Routing/Receive, the attributes of GetTypeId in
--                  Routing/Attributes, DeferredRouteOutputTag in Routing/Tag
--   Payment        model/payment-network: the constructor, StartApplication, the headers that are made
--                  and HandleDigest; Payment/Pending has HandleHello and the loops over the pending
--                  vectors, Payment/Interest HandleData and the two handlers of interests,
--                  Payment/Dispatch HandleOffchainMsg, Payment/Arrival the bytes of a message up to
--                  RecvRReq and RecvHello, Payment/Schedule the schedule of the hellos,
--                  Payment/Maintain SendChMaintain, Payment/Socket the socket of StartApplication and
--                  StopApplication, Payment/Socket/Send SendPacket, Payment/Routes LookupRoute and
--                  addNewRoute
--   Routing/Path   a request on its way from node to node; Routing/Network the floods of many nodes
--   Payment/Delivery  runs of two and of three nodes, handler by handler: which data wait and which
--                  packets a hello sends
--   Payment/Relay  what a node promises for the packets that wait, apart from the code: duties with a
--                  rank of the nodes and the best rank reached, which one hello meets
--   Routing/Letters  what is sent on each socket, apart from the code: letters with a socket, an
--                  address and a header
--   Helper         helper/payment-network-helper: the factory's attributes and Install
--   Tests          concrete inputs
--
-- The other modules below a part are named for what they prove.
--
-- An operation takes the state and returns the new state first, then its answer, then what it asks
-- of ns-3 (calls of callbacks, timers, packets to send) as a list of values in order. Simulator::Now
-- () is the argument `now`; the answers of ns-3 and of its random numbers during a call are
-- arguments, or the record Env of Routing. `none` in an Option stands for undefined behaviour (the
-- front of an empty vector, the overflow of an int32_t), for a null m_socket or a node that ns-3
-- does not find, or for a failed assertion. Other pointers are taken as set: the packets, and m_ipv4
-- and m_uniformRandomVariable of the routing protocol, which no code of the repository sets.
-- Unsigned words wrap around as written; the signed reading of a sequence number is signed32. The
-- times that payment-network.cc adds in double are exact numbers. Loops over containers are
-- structural recursions. The one loop that runs on fuel is schedule_loop; how much is enough is
-- stated with its theorem.
--
-- The buffer of ns-3 (Wire), interface addresses (Interfaces), packets and IPv4 headers (Packets), the
-- milliseconds of a Time (Millis), the classes Relationship, ContentManager and InterestManager
-- (Services), and the factories, nodes and names of ns-3 (Installation) are not in the repository: they
-- are parameters, with the laws that the theorems need.
--
-- The repository does not compile as it stands. Where a name is missing or a call has another number
-- of arguments, the model takes the missing value as an argument and says so at the definition. Not
-- modelled are the functions that are declared only (most of the RREP and RERR handling),
-- ClosePaymentChannelToNextHop, which only logs, the logs, the registration of types, the destructors,
-- the helper's SetFill, which calls a method that PaymentNetwork does not have, and the example and the
-- test suite, which are scaffolding of an ns-3 module.
pub mod Base
pub mod IdCache
pub mod Dpd
pub mod RequestQueue
pub mod Route
pub mod Table
pub mod Packet
pub mod Neighbors
pub mod Routing
pub mod Payment
pub mod Helper
pub mod Tests

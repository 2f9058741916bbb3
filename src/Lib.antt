-- ===== src/Lib.antt =====
-- ospfd, a router daemon for OSPF: its packet codec, its link-state database, its neighbor and
-- interface state machines, its election of the Designated Router, its calculation of the shortest paths,
-- its route caches, and the protocol instance that ties these together.
--
-- The program. A packet that arrives is checked and parsed (src/packet/). A Hello becomes events of a
-- neighbor (src/proto/neighbor.rs) and of the interface that it came in on (src/proto/interface.rs),
-- whose election and whose role decide with which neighbors databases are exchanged; that exchange is
-- Database Description, Link State Request and Link State Update packets, whose LSAs are installed in
-- the database of the area (src/lsdb.rs) if they are more recent than what is there
-- (`LsaHeader::is_more_recent_than` in src/packet/lsa.rs). Routes are computed from the database
-- (src/proto/spf.rs): the shortest-path tree of an area gives the intra-area routes and the paths to the
-- other routers, and these carry the inter-area and external routes. The routes of a calculation replace
-- those before in a cache (src/rib.rs, src/rib_v3.rs). Packets that are sent may be authenticated
-- (src/packet/auth.rs). OSPFv3 has packets (src/packet_v3/) and a database (src/lsdb_v3.rs) of its own.
--
-- The files.
-- - Common: names passed on from the libraries, Boolean tests, lists, the outcome of a fallible
--   operation, big-endian bytes, and the integers (Common/Int). A Rust Result is an `Outcome`: `ok`, the
--   error of `PacketError`, or `fault`, a panic (an index out of range, `expect`). `Returns` says that
--   there is no panic.
-- - Packet/Checksum: `ip_checksum` (Ip) and `fletcher16` (Fletcher) of src/packet/checksum.rs.
-- - Packet/Seal, Packet/Header, Packet/Codec: src/packet/mod.rs: the checksum over a packet, its
--   header, and the packets with their bodies.
-- - Packet/Auth: src/packet/auth.rs, with the digests of the crates it uses as parameters.
-- - Area: src/area.rs.
-- - Packet/Lsa: src/packet/lsa.rs: Header with the key and the comparison, Body with the bodies,
--   Codec with the LSA as a whole.
-- - Packet/Hello, Packet/Exchange: src/packet/hello.rs, and src/packet/dd.rs, lsr.rs, lsu.rs with the
--   acknowledgement of src/packet/lsa.rs. Packet/Each and Packet/Addresses are loops that they share.
-- - Lsdb: src/lsdb.rs. Entries is the HashMap, as an association list; Store has the operations.
-- - Neighbor: src/proto/neighbor.rs. `handle_event` is the match on state and event (`react`, with the
--   guarded and catch-all arms in `guarded`), then the storing of the new state (`commit`).
-- - Interface: src/proto/interface.rs. Election has one iteration of `run_dr_election` and its loop,
--   Machine the record and `handle_event` in the same two steps.
-- - Spf: src/proto/spf.rs. Table is a HashMap keyed by addresses; Tree has the loop of Dijkstra's
--   algorithm, one definition for both calculations, with its proof in Pop (the heap), Walks (the graph),
--   Relaxed, Links, Round (one round), Fuel, Distances (costs), Keeps and Hops (next hops); Routes has the
--   calculations, with what they give in Intra, Costs, Beyond and Masks.
-- - Rib: src/rib.rs (V2) and src/rib_v3.rs (V3), over the loop that they share (Cache).
-- - PacketV3: src/packet_v3/: Header, Hello, Lsa (the LSA header), Prefix, Bodies and External (the LSA
--   bodies), Exchange (dd.rs, lsr.rs, lsack.rs, lsu.rs), Total and TotalLsa (arbitrary bytes). The loops are
--   those of Packet/Each and Packet/Addresses. Bits24 has the numbers of three bytes. An Ipv6Addr is there
--   the list of its octets.
-- - LsdbV3: src/lsdb_v3.rs.
-- - Instance: src/instance.rs. State has the record and what all handlers use; Dispatch is
--   `process_packet`, which finds the interface and calls the handler of the packet's type: Hello
--   (`process_hello`, `build_hello`), Describe (`process_dd`, `build_dd`; what the databases
--   hold of its headers is in Stored), Update (`process_lsu`), Request
--   (`process_lsr`). Flood is `flood_lsas_to_others`; Originate has Router- and Network-LSAs, with Summary
--   (`originate_summary_lsas`, and `run_spf`, which makes the same inputs), External (Type 5 LSAs) and
--   Masks (prefix lengths). Timers has the throttling of calculations, the inactivity timers and the
--   changes of interfaces; Tick is what is sent again; Maintenance is `periodic_maintenance`, with
--   what the daemon's loop does itself (src/main.rs) in Loop and its calls as a step relation in Steps. Sound has the invariant of the instance and what keeps it.
-- The modules named Examples hold concrete runs.
--
-- The model. Machine integers are natural numbers, with their wrap-around written out where the source can
-- wrap; an i32 sequence number is held as its 32-bit pattern and compared by `signed_rank`, and the sums
-- of `fletcher16` are integers that wrap as i32 (a release build). An address is its 32-bit number. An
-- Instant is a number of nanoseconds from a point at least 60 seconds before the first, and the time is an
-- argument. `Vec<u8>` is a list of numbers, bytes where a hypothesis says so. A method that changes its
-- object returns the new one. The HashMap of neighbors is the list of its entries in the order of
-- iteration. A BinaryHeap is a list from which a greatest node is taken. The order in which a HashMap is
-- gone through is that of its list.
--
-- A handler of the instance takes the interface that the packet came in on with its index, and returns the
-- instance and the packets to send. A HashMap is an association list with the operations of Spf/Table. What
-- a statement of a route map matches is decided by the crate ribd_routemap, and is a parameter; the
-- instance's maps are a function from names. `process_dd` changes a neighbor by `reply`, which is
-- `receive_dd` and then `answer_dd`, with what the database holds at the packet given in `Received`;
-- Describe/Run repeats it, and Describe/Feed puts the packets of one neighbor through `process_dd`.
--
-- Bounds. `fold_carries` has three rounds, and three are enough for a packet of at most 65535 bytes. The
-- parsing loops that go through a slice have its length as fuel; each round takes at least one byte. The
-- election's loop runs at most twice, as in the source. The Fletcher results are for at most 4103 covered
-- bytes: beyond that the i32 sums of the source can overflow. Router links are read back where `num_tos` is
-- 0, since `RouterLink::encode` writes no TOS entries. The loop of the shortest paths has fuel for each node in
-- the heap and each one that the links of the routers not yet visited can push; a round
-- takes one node, and pushes at most those. Its results are for at most 65535 routers with 16-bit metrics,
-- whose costs cannot wrap.
--
-- Not modelled: logging, Display, serde and Debug; of the instance, its construction from the
-- configuration and its reload; the shortest paths and the instance of version 3 (src/spf_v3.rs,
-- src/instance_v3.rs); the rest of the configuration, sockets and the rest of the daemon.
pub mod Common
pub mod Packet
pub mod Neighbor
pub mod Interface
pub mod Lsdb
pub mod Spf
pub mod Rib
pub mod PacketV3
pub mod LsdbV3
pub mod Area
pub mod Instance

-- ===== src/Lib.antt =====
-- MBR, the map-based relay for vehicular networks, as it runs in ns-3 (NS3/) and in the Linux kernel
-- (Linux/), with the GPSR routing that it is compared with.
--
-- The parts and how they interact. The road graph is made from a SUMO map (MbrSumo). Every node says in
-- hello messages where it is (MbrHeader); its neighbours keep what they hear in a table (Neighbors), from
-- which entries fall out when they expire. To send a packet round a corner a node looks for the
-- intersections between itself and the destination in the road graph (MbrGraph::cross_vertex), takes the 3
-- by 3 blocks of the geohash grid around one of them and asks the table for the neighbour that stays
-- longest inside (GetnbFromsetBest); the relay's address goes down to the MAC layer in a tag of the packet
-- (MbrTag). GPSR (RoutingProtocol) puts its headers on a packet, passes it on to the neighbour closest to
-- the destination or, in recovery mode, along the planar graph, and keeps packets without a route in a
-- request queue (RequestQueue), which a timer makes it look at. Its position table (PositionTable) either
-- holds the neighbours itself or reads them from the table of MBR; the location service tells it where a
-- destination is. The module of the Linux kernel (Linux/kernel-module) is MBR for a real node: a process
-- writes the neighbours to its shared memory, netlink commands build its road graph, and its hook on
-- packets that leave looks for the intersection and the relay.
--
-- Which file is about which part.
-- - Mbr/Header.antt: NS3/mbr-neighbor/model/mbr-header.cc. The buffer of ns-3 is an interface, Wire.antt,
--   that Wire/LittleEndian.antt fills.
-- - Mbr/Neighbors.antt: NS3/mbr-neighbor/model/neighbor.cc. A call that purges gives the new table beside
--   its result; the timer is the time for which a purge is scheduled.
-- - Mbr/App.antt: NS3/mbr-neighbor/model/mbr-neighbor-app.cc, the hellos that are sent and heard. The random
--   numbers and what MbrSumo tells are arguments.
-- - Wave/GeoHash.antt: the moves between blocks and the scans of the set, NS3/wave/model/geohash.c.
-- - Wave/Graph.antt: NS3/wave/model/graph.cc. A pointer to a vertex is a number, the heap is a function.
-- - Wave/Encode.antt: geohash_fast_encode of NS3/wave/model/geohash.c; Wave/Codec.antt: geohash_encode and
--   the decodings of the same file.
-- - Wave/Division.antt: graph_division of graph.cc, which puts vertices on long streets.
-- - Wave/Sumo.antt, Wave/Strings.antt: NS3/wave/model/mbr_sumomap.cpp, from the elements of a SUMO map to the
--   road graph. What tinyxml2 finds in the files is lists.
-- - Wave/Cross.antt: cross_vertex of the same file, with its tree of `path` nodes as a list in which a
--   node is its position.
-- - Wave/Locate.antt: the vertex nearest to a vehicle, of the same file, with get_distance of
--   NS3/wave/model/mbr-utils.c.
-- - Wave/Route.antt: mbr_forward of NS3/wave/model/mbr_route.cc, over all of these.
-- - Wave/Send.antt: the block of MBR in Ipv4Interface::Send (NS3/internet/model/ipv4-interface.cc), the
--   tag of NS3/wave/model/mbr-packet-tag.cc, and OcbWifiMac::Enqueue (NS3/wave/model/ocb-wifi-mac.cc), with
--   the six bytes of an address as an interface. Wave/Route/Samples.antt has the data of their tests.
-- - Wave/Air.antt: the header of a data frame (NS3/wifi/model/wifi-mac-header.cc) with its bytes, and
--   OcbWifiMac::Receive, which makes a header for the next hop of a frame of MBR.
-- - Gpsr/Packet.antt, Gpsr/Rqueue.antt: NS3/gpsr/model/gpsr-packet.cc and gpsr-rqueue.cc.
-- - Gpsr/Ptable.antt, Gpsr/Planar.antt: NS3/gpsr/model/gpsr-ptable.cc, the table with the greedy choice,
--   and the planar neighbours.
-- - Gpsr/Angle.antt: GetAngle and BestAngle of the same file.
-- - Gpsr/Location.antt: NS3/location-service/model, the interface and GodLocationService.
-- - Gpsr/Protocol.antt: NS3/gpsr/model/gpsr.cc and gpsr.h, the state of RoutingProtocol with the headers,
--   Forwarding and RecoveryMode. What the node hands to the callbacks of ns-3 is a list of events.
-- - Gpsr/Waiting.antt: DeferredRouteOutput, SendPacketFromQueue and CheckQueue of the same file.
-- - Gpsr/Routes.antt: RouteInput, RouteOutput, LoopbackRoute, AddHeaders, RecvGPSR and the hellos of the
--   same file. Gpsr/Routes/Run.antt has the events that reach a node as a step relation.
-- - Gpsr/Samples.antt: the data of the tests on GPSR.
-- - Linux/Neighbors.antt, Linux/Table.antt, Linux/Forward.antt: Linux/kernel-module/neighbors.c and
--   mbr_route.c, the shared table of neighbours, the relay table, and mbr_forward over them. The table is
--   an argument; mbr_forward is modelled with and without CONFIG_MBR_TABLE.
-- - Linux/Cross.antt: the search of Linux/kernel-module/graph.c, over the graph of Wave/Graph.antt, whose
--   operations on edges have the same text there.
-- - Linux/Control.antt: the netlink commands and the status files of Linux/kernel-module/mbr-mod.c.
-- - Linux/Output.antt: the hook of Linux/kernel-module/pkt_output.c, with the state of the module.
-- - Prelude.antt and Doubles.antt: shared lists, tests and sums; the floating-point numbers, which are
--   their bit patterns with the operations as an interface.
--
-- What a function of the source changes is in its result; Simulator::Now () is an argument. Integers are
-- native numbers with the wrap-around written out where the source can reach it. A read that is undefined
-- in the source gives `none`, or is a parameter (the key behind the end of a std::map). Fuel:
-- search_from, in both programs, has one round for each vertex of the graph, as each round takes a vertex that
-- stands in the tree once; climb and turn_loop have one step for each node of the tree, as a parent stands before its child;
-- the loops over Dequeue have one round more than there are packets in the queue; graph_division has one
-- round for each vertex of the list that it appends to, and its result says whether that was enough.
--
-- The name of a vertex is a list of bytes. The source has room for 24 of them: the reading of a map gives
-- no result for a longer one. The commands of the kernel module have the same room.
--
-- What is a parameter: ns-3's list of nodes with their positions, the ARP caches, CalculateDistance, the
-- floating-point unit, the complex numbers, what MbrSumo tells of the node's own place, the six bytes of a
-- Mac48Address, atof, and the projection of proj. What is not modelled: the removal of a vertex, which
-- reads freed memory; peri_nexthop, which nothing calls; the notifications of interfaces in gpsr.cc and the
-- set-up of the applications, which are calls into ns-3's sockets; the opening of the map files; the rest
-- of Ipv4Interface::Send and OcbWifiMac, which is ns-3's; the obstacle model; of the kernel module what
-- registers files, hooks and memory with the kernel, and what sends raw packets to try it.
mod Prelude
mod Wire
mod Doubles
pub mod Wave
pub mod Mbr
pub mod Gpsr
pub mod Linux

-- ===== src/Linux/Output/Life.antt =====
-- A module that the user gives two roads with a corner, and that sends one packet round it.
use Prim.{tt}
use map_based_relay.Prelude.{
  ◌<◌, List, [], ◌∷◌, Option, some, none, ◌≡◌, inl, inr, refl, true, is_some, arith,
}
use map_based_relay.Wave.Graph.{
  Graph, str_eq, graph_create, get_vertex, vertex_create as vertex_create_ns3,
  vertex_add_edge_to_vertex, vertex_add_edge_to_vertex_undirect,
}
use map_based_relay.Wave.GeoHash.{geohash_get_neighbors_in_set, scan_cells, scan_columns}
use map_based_relay.Wave.Cross.Ids.{In}
use map_based_relay.Mbr.Neighbors.{blocks_ahead}
use map_based_relay.Linux.Neighbors.{
  NeighborTable, neighbor_getnode_fromip, neighbor_getnode_fromset_best, best_loop, get_dtime,
}
use map_based_relay.Linux.Cross.{
  uint64_max, find_vertex_by_vehicle_position, nearest_loop, cross_vertex, search_from, visit_edges,
  print_crossnode, turn_loop,
}
use map_based_relay.Linux.Control.{
  GraphDeliver, new_node, new_edge, netlink_recv_cb, vertex_create, graph_add_vertex,
}
use map_based_relay.Linux.Forward.{mbr_forward, intersection, relay_at}
use map_based_relay.Linux.Output.{
  Module, SkBuff, Frame, stolen, eth_header_dirty, push_real_dst_mac, count_relayed, relay_packet,
  handle, output_handler,
}
use map_based_relay.Linux.Output.Run.{
  Run, loaded, heard, moved, switched, counter_written, stats_switched, commanded, sent_on,
  loaded_module, IsCounted, Run-IsCounted,
}
use map_based_relay.Linux.Output.Answers.{output_handler-some}

abbrev after : Graph → GraphDeliver → Graph
after g d = elim (netlink_recv_cb g d) [ none ↦ g | some g' ↦ g' ]

abbrev first : GraphDeliver
first = new_node (0 ∷ []) 1000

abbrev second : GraphDeliver
second = new_node (1 ∷ []) 0xc00000

abbrev third : GraphDeliver
third = new_node (2 ∷ []) 2000

abbrev road : GraphDeliver
road = new_edge (0 ∷ []) (1 ∷ []) 7

abbrev other_road : GraphDeliver
other_road = new_edge (1 ∷ []) (2 ∷ []) 8

abbrev corner : Graph
corner = after (after (after (after (after graph_create first) second) third) road) other_road

abbrev table : List NeighborTable
table =
    record { ip = 9; mac = 99; geo_hash = 2000; direction = 0; isvalid = true }
    ∷ record { ip = 8; mac = 77; geo_hash = 0xc00000; direction = 90; isvalid = true }
    ∷ []

abbrev ready : Module
ready = record (loaded_module []) {
  graph = corner;
  neighbors = table;
  status = record {
    geohash_this = 1000;
    mbr_start = 1;
    relay_work = 5;
    stat_on = 1;
    stat_write = 0;
  };
}

ready-Run : Run ready 5 [] [] [] []
unfolding netlink_recv_cb get_vertex str_eq graph_create vertex_create vertex_create_ns3
    graph_add_vertex vertex_add_edge_to_vertex_undirect vertex_add_edge_to_vertex
ready-Run = counter_written 5 (
    stats_switched (some 1) (
      switched (some 1) (
        moved (some 1000) (
          heard table (
            commanded other_road _ refl (
              commanded road _ refl (
                commanded third _ refl
                  (commanded second _ refl (commanded first _ refl (loaded []))))))))))

abbrev packet : Option SkBuff
packet = some (record { nexthop = 9; payload = 69 ∷ 0 ∷ [] })

abbrev frame : Frame
frame = record {
  real_dst = some 99;
  h_dest = 77;
  h_source = 42;
  h_proto = 0x6559;
  payload = 69 ∷ 0 ∷ [];
}

abbrev later : Module
later = record ready {
  status = record ready.status { relay_work = 6 };
  statis = record { mac = 77; sec = 3; nsec = 4; packetsize = 2 } ∷ [];
  mac_this = 42;
  addrinit_flag = true;
}

sends : output_handler (42 ∷ []) 3 4 true ready packet ≡ some (later, [], stolen frame)
unfolding netlink_recv_cb get_vertex str_eq graph_create vertex_create vertex_create_ns3
    graph_add_vertex vertex_add_edge_to_vertex_undirect vertex_add_edge_to_vertex output_handler
    handle relay_packet count_relayed eth_header_dirty push_real_dst_mac mbr_forward intersection
    relay_at neighbor_getnode_fromip neighbor_getnode_fromset_best best_loop get_dtime
    geohash_get_neighbors_in_set scan_cells scan_columns blocks_ahead cross_vertex search_from
    visit_edges print_crossnode turn_loop find_vertex_by_vehicle_position nearest_loop
sends = refl

later-Run : Run later 5 [] (frame ∷ []) [] later.statis
later-Run =
    sent_on {m = ready} {written = 5} {before = []} {sent = []} {printed = []} {noted = []}
      (42 ∷ []) 3 4 true packet later [] frame sends ready-Run

Run-IsCounted_example : IsCounted later 5 [] (frame ∷ []) [] later.statis
Run-IsCounted_example = Run-IsCounted later-Run

first_vertex : In later.graph.vertices 0
unfolding netlink_recv_cb get_vertex str_eq graph_create vertex_create vertex_create_ns3
    graph_add_vertex vertex_add_edge_to_vertex_undirect vertex_add_edge_to_vertex
first_vertex = inr (inr (inl refl))

first_block : (later.graph.heap 0).geo_hash < uint64_max
unfolding netlink_recv_cb get_vertex str_eq graph_create vertex_create vertex_create_ns3
    graph_add_vertex vertex_add_edge_to_vertex_undirect vertex_add_edge_to_vertex
first_block = omega arith

output_handler-some_example : is_some (output_handler (42 ∷ []) 3 4 true later packet) ≡ true
output_handler-some_example =
    output_handler-some (42 ∷ []) 3 4 true packet 0 later-Run first_vertex first_block (omega arith)
      (omega arith, (omega arith, tt))

-- ===== src/Linux/Control/Tests.antt =====
-- A command about nodes that are not there, and a switch.
use map_based_relay.Prelude.{[], ◌∷◌, some, none, ◌≡◌, refl}
use map_based_relay.Wave.Graph.{graph_create, get_vertex}
use map_based_relay.Linux.Control.{
  new_edge, netlink_recv_cb, created_status, status_mbr_start_write,
}

unknown_node : netlink_recv_cb graph_create (new_edge (1 ∷ []) (2 ∷ []) 7) ≡ none
unfolding netlink_recv_cb get_vertex graph_create
unknown_node = refl

switched_on : (status_mbr_start_write created_status (some 1)).mbr_start ≡ 1
switched_on = refl

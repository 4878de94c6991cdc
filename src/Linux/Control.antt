-- ===== src/Linux/Control.antt =====
-- Linux/kernel-module/mbr-mod.c: the commands that build the road graph (`netlink_recv_cb`), and the
-- status files. Of graph.c: `vertex_create` and `graph_add_vertex`, which differ from NS3/wave/model/graph.cc:
-- a vertex has no coordinates and no mark, and a new one comes first. The other operations on the graph have the same
-- text. The echo of a command and the copies from and to the user are the kernel's; an answer of
-- `kstrtoull_from_user` is a number, or `none` on an error. A message shorter than its header changes
-- nothing, as one of another type does; allocations are taken to succeed.
pub mod Built
mod Tests
use map_based_relay.Prelude.{
  ℕ, ◌%◌, ◌^◌, List, [], ◌∷◌, Option, none, some, Bool, true, false, ◌==◌, if◌then◌else◌, ◌>>=◌,
}
use map_based_relay.Wave.Graph.{
  Graph, vertex_create as vertex_create_ns3, get_vertex, vertex_add_edge_to_vertex_undirect,
}
use map_based_relay.Linux.Table.{RelayTableList, update_mbrtable_outrange}

unfoldable pub vertex_create : Graph → (id_str : List ℕ) → (geo_hash : ℕ) → Graph × ℕ
vertex_create g id_str geo_hash = vertex_create_ns3 g id_str 0 0 geo_hash false

unfoldable pub graph_add_vertex : Graph → (v : ℕ) → Graph
graph_add_vertex g v = record g { vertices = v ∷ g.vertices }

pub data GraphDeliver : Type 0 where
  del_node : (vertex : List ℕ) → GraphDeliver
  new_node : (vertex : List ℕ) → (geohash : ℕ) → GraphDeliver
  new_edge : (from to : List ℕ) → (road_id : ℕ) → GraphDeliver
  other : (mode : ℕ) → GraphDeliver

-- The graph after the command; `none` where the source follows a null pointer or a dangling one. To
-- delete a node always does: `graph_remove_vertex_undirect` reads the successor of a list node that it
-- has freed, and where no vertex has the id, it reads the edges of a null pointer.
unfoldable pub netlink_recv_cb : Graph → GraphDeliver → Option Graph
netlink_recv_cb g (del_node vertex) = none
netlink_recv_cb g (new_node vertex geohash) =
    let r = vertex_create g vertex geohash in some (graph_add_vertex r.0 r.1)
netlink_recv_cb g (new_edge from to road_id) = do
  p ← get_vertex g from
  q ← get_vertex g to
  some (vertex_add_edge_to_vertex_undirect g p q road_id)
netlink_recv_cb g (other mode) = some g

pub record MbrStatus : Type 0 where
  pub geohash_this : ℕ
  pub mbr_start : ℕ
  pub relay_work : ℕ
  pub stat_on : ℕ
  pub stat_write : ℕ

-- What mbr_create_debugfs sets; the two others are zero as all of a global variable.
abbrev pub created_status : MbrStatus
created_status = record {
  geohash_this = 0;
  mbr_start = 0;
  relay_work = 0;
  stat_on = 0;
  stat_write = 0;
}

-- A u64 in an `int`.
abbrev to_int : ℕ → ℕ
to_int val = val % 2 ^ 32

-- The status and the relay table.
abbrev pub status_geohash_write :
    MbrStatus → List RelayTableList → (val : Option ℕ) → MbrStatus × List RelayTableList
status_geohash_write st table none = (st, table)
status_geohash_write st table (some val) =
    if val == 0
    then (st, table)
    else (record st { geohash_this = val }, update_mbrtable_outrange val table)

abbrev pub status_mbr_start_write : MbrStatus → (val : Option ℕ) → MbrStatus
status_mbr_start_write st none = st
status_mbr_start_write st (some val) = record st { mbr_start = to_int val }

abbrev pub status_relay_work_write : MbrStatus → (val : Option ℕ) → MbrStatus
status_relay_work_write st none = st
status_relay_work_write st (some val) = record st { relay_work = to_int val }

abbrev pub status_stat_on_write : MbrStatus → (val : Option ℕ) → MbrStatus
status_stat_on_write st none = st
status_stat_on_write st (some val) = record st { stat_on = to_int val }

abbrev pub status_stat_write_write : MbrStatus → (val : Option ℕ) → MbrStatus
status_stat_write_write st none = st
status_stat_write_write st (some val) = record st { stat_write = to_int val }

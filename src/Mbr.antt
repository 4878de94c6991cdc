-- ===== src/Mbr.antt =====
-- NS3/mbr-neighbor: the hello header and the neighbour table of the map-based relay.
pub mod Header
pub mod Neighbors
pub mod App

-- ===== src/Linux.antt =====
-- Linux/kernel-module: the module of the Linux kernel that relays the packets of a vehicle.
pub mod Neighbors
pub mod Table
pub mod Cross
pub mod Forward
pub mod Control
pub mod Output

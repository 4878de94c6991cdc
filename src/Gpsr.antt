-- ===== src/Gpsr.antt =====
-- NS3/gpsr: the packet headers, the request queue and the position table of the GPSR protocol.
pub mod Packet
pub mod Samples
pub mod Rqueue
pub mod Ptable
pub mod Planar
pub mod Angle
pub mod Location
pub mod Protocol
pub mod Waiting
pub mod Routes

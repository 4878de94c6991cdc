-- ===== src/Wave.antt =====
-- NS3/wave/model: the geohash arithmetic, the road graph and the relay decision.
pub mod GeoHash
pub mod Graph
pub mod Cross
pub mod Locate
pub mod Route
pub mod Encode
pub mod Division
pub mod Send
pub mod Air
pub mod Strings
pub mod Sumo
pub mod Codec

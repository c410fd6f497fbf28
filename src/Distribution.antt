-- ===== src/Distribution.antt =====
-- lib/core/jdistribution.c and lib/core/distribution/: how the bytes of an object are spread
-- over the object servers.
pub mod Piece
pub mod Scheme
pub mod RoundRobin
pub mod SingleServer
pub mod Weighted
pub mod Dispatch
pub mod Serialize
pub mod Loop
pub mod Tests

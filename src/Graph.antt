-- ===== src/Graph.antt =====
-- pkg/graph: the Graph client and the choice of the drive of a target.
pub mod Resolver
pub mod Client

-- ===== src/Depgraph/Cycles.antt =====
-- depgraph.go: the depth-first search reports a cycle exactly where there is one.
mod Success
mod Fuel
mod Errors
mod Roots
pub mod Sound

-- ===== src/Depgraph/Order.antt =====
-- order.go: the start order is the greedy schedule.
mod Graph
mod Dependents
mod Level
mod Step
mod Rounds
pub mod Total
pub mod Stop

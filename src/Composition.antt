-- ===== src/Composition.antt =====
-- pkg/composition: choosing services by profile (filter.go), and init containers.
pub mod Filter
pub mod InitContainers

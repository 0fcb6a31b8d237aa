-- ===== src/Cri.antt =====
-- pkg/cri: the references of images that are files of the host (import.go).
pub mod ImageRef

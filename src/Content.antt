-- ===== src/Content.antt =====
-- internal/content: the blob store, chunk manifests and the content index.
pub mod Store
pub mod Manifest
pub mod Index
pub mod Policy
pub mod Writers
mod Tests

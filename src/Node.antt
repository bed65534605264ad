-- ===== src/Node.antt =====
-- internal/node: the wire format of content transfers, the push protocol between two nodes, and the
-- placement of replicas.
pub mod Wire
pub mod Push
pub mod Replicate
mod Tests

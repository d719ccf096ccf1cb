-- ===== src/Network.antt =====
-- The nodes that a client sends its requests to: src/ManagedNode.js, src/Node.js,
-- src/client/ManagedNetwork.js and src/client/Network.js.
pub mod Node
pub mod State
pub mod Readmit
pub mod Choose
pub mod Update
mod Tests

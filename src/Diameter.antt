-- ===== src/Diameter.antt =====
-- internal/diameter: messages, and which peer a request is sent to.
pub mod Message
pub mod Sample
pub mod PeerTable
pub mod Manager
pub mod Dialing
pub mod Transport

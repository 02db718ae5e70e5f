-- ===== src/Client.antt =====
-- internal/client: the peer wire protocol, the bitfields and the tracker requests of the downloader.
pub mod Bitfield
pub mod Download
pub mod Requests
pub mod Storage
pub mod Swarm
pub mod Wire

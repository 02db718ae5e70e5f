-- ===== src/Torrent.antt =====
-- internal/torrent: the hashing of created torrents, and the parsing of torrents and magnet links.
pub mod Hashing
pub mod Magnet
pub mod Merkle
pub mod Parse

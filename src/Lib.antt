-- ===== src/Lib.antt =====
-- Verification library for weightless, a BitTorrent tracker (cmd/tracker, internal/tracker) with a
-- command line client (cmd/wl, internal/client, internal/torrent).
--
-- The parts, and the files that model them:
-- - internal/bencode/validate.go, the validator that every bencoded input passes before it is decoded:
--   Bencode.antt, a function for each method of the parser. Bencode/Syntax.antt is the independent
--   description, a data type of values with their canonical text. The recursion has fuel, 2 * n + 1
--   for n bytes, which is enough: a value takes a step for each bracket and each token, and each
--   of them takes a byte.
-- - internal/tracker/recognize.go, which turns the query of an announce into typed parameters or
--   refuses it: Tracker/Recognize.antt, over the url.Values of Tracker/Query.antt.
-- - internal/tracker/auth.go and authenticatePasskey of internal/tracker/announce.go: Tracker/Auth.antt,
--   with the announce URL that cmd/wl/main.go makes in Cli.antt. HMAC-SHA256 and the path that net/url
--   reads from a URL are parameters.
-- - internal/tracker/state.go, the peers and the usage in memory: Tracker/State.antt, and
--   Tracker/State/Usage.antt for FlushUsers and DrainBacklog with the requests of others between the
--   release of the lock and its return, and rows of the backlog whose DELETE fails. Go leaves the order of a visit of a map open, and
--   the functions take it as a parameter. The backlog table is an interface of operations and laws.
-- - HandleAnnounce, executeAnnounce and PackPeers of internal/tracker/announce.go: Tracker/Announce.antt
--   and Tracker/Compact.antt, which composes the parts above. The answers of the database are
--   parameters, and the update of a registry row is an output. Tracker/Compact.antt also has
--   unpackPeers of internal/client/tracker.go, the other end of the compact peer lists.
-- - the takedown of internal/tracker/registry.go: Tracker/Registry.antt, over tables of the database and
--   the peers in memory, for the announces that come after it.
-- - HandleScrape of internal/tracker/scrape.go: Tracker/Scrape.antt.
-- - internal/tracker/ratelimit.go: Tracker/RateLimit.antt, Allow in exact arithmetic in place of float64.
-- - the query of Announce in internal/client/tracker.go: Client/Requests.antt, with the proof that the
--   tracker's recognizer reads it as it was meant.
-- - internal/client/wire.go and internal/client/bitfield.go: Client/Wire.antt and Client/Bitfield.antt.
-- - downloadPiece and blockSize of internal/client/downloader.go: Client/Download.antt, a step for each
--   message that the connection delivers.
-- - internal/client/storage.go: Client/Storage.antt, with the files below the download directory as a
--   map from cleaned paths to contents. Positions are unbounded there, and are the source's int64 below
--   2 ^ 63.
-- - internal/client/swarm.go: Client/Swarm.antt, the goroutines of a download as a step relation over the
--   fields of the swarm and the places of its workers, of the collection loop and of the supervisor. A step
--   is one operation on a channel or on a field that another goroutine reads. The collection loop writes
--   pieces by the storage.
-- - internal/torrent/parse.go: Torrent/Parse.antt, over what the bencode library decodes. Its paths go
--   to the storage.
-- - internal/torrent/magnet.go, and VerifyInfoHash of internal/torrent/parse.go: Torrent/Magnet.antt.
--   url.ParseQuery and the digests are parameters, and strings.ToLower is that of ASCII: no other
--   character has a lowercase form that isHex accepts.
-- - the hashing of created torrents in internal/torrent/torrent.go: Torrent/Merkle.antt for the trees and
--   Torrent/Hashing.antt for hashReaderHybrid and the pieces across files of buildDirHybrid.
--   The loops over bytes have a unit of fuel more than there are bytes, and each round takes a byte.
-- Prelude.antt and its children have what the parts share: maps, texts, decimal and hexadecimal numbers,
-- the standard library's strconv, net.SplitHostPort and path/filepath on Unix, and int64 as bit
-- patterns below 2 ^ 64.
--
-- Not modelled: SQL, HTTP, logs and metrics (effects outside the program), symbolic links,
-- permissions and the errors of Preallocate, float64 rounding, the registry's other handlers, the sessions with peers and the
-- exchange of metadata (internal/client/peer.go, internal/client/metadata.go), the info dictionary of
-- created torrents, and the command line.
pub mod Bencode
pub mod Cli
pub mod Client
pub mod Prelude
pub mod Torrent
pub mod Tracker

-- ===== src/Tracker.antt =====
-- internal/tracker: the announce recognizer, the swarm state, the handlers and the rate limiter.
pub mod Announce
pub mod Auth
pub mod Compact
pub mod Query
pub mod RateLimit
pub mod Recognize
pub mod Registry
pub mod Scrape
pub mod State

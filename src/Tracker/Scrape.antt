-- ===== src/Tracker/Scrape.antt =====
-- HandleScrape of internal/tracker/scrape.go. The database is a parameter, as in Tracker/Announce.antt;
-- the row of the registry has the number of completions.
pub mod Files
mod Tests
use weightless.Prelude.{
  ℕ, ◌+◌, Bool, true, false, ◌&&◌, ◌||◌, not, Option, none, some, List, [], ◌∷◌, Bytes, codes, ◌==◌,
  if◌then◌else◌, length, take,
}
use weightless.Prelude.Dict
use weightless.Prelude.Dict.{Dict}
use weightless.Prelude.Hex.{hex_encode}
use weightless.Tracker.Announce.{Lookup, is_row}
use weightless.Tracker.Query
use weightless.Tracker.Query.{Query}
use weightless.Tracker.State.{Peer, SwarmState, get_counts}

abbrev pub max_scrape_hashes : ℕ
max_scrape_hashes = 100

-- `completions` is `none` for no row and for a query that fails.
pub record ScrapeEnv : Type 0 where
  pub open_tracker : Bool
  pub completions : Bytes → Option ℕ
  pub blocklist : Bytes → Lookup
  pub visit : Dict Peer → Dict Peer

pub record Counts : Type 0 where
  pub complete : ℕ
  pub downloaded : ℕ
  pub incomplete : ℕ

abbrev pub counts_of : ScrapeEnv → Bytes → ℕ → SwarmState → Counts
counts_of env hash downloaded s =
    let counts = get_counts env.visit hash s in
    record { complete = counts.0; downloaded = downloaded; incomplete = counts.1 }

-- Behind the registry's query; a hash that is not registered is known to an open tracker only.
abbrev pub downloads : Bool → Option ℕ → Option ℕ
downloads open_tracker (some n) = some n
downloads open_tracker none = if open_tracker then some 0 else none

abbrev pub unblocked : ScrapeEnv → Bytes → Option ℕ → SwarmState → Option Counts
unblocked env hash none s = none
unblocked env hash (some n) s =
    if is_row (env.blocklist hash) then none else some (counts_of env hash n s)

-- What one hash of the request gets; `none` if it is passed over.
pub scrape_hash : ScrapeEnv → Bytes → SwarmState → Option Counts
scrape_hash env raw s =
    let hash = hex_encode raw in
    if length raw == 20 || length raw == 32
    then unblocked env hash (downloads env.open_tracker (env.completions hash)) s
    else none

abbrev pub put_found : Bytes → Option Counts → Dict Counts → Dict Counts
put_found raw none files = files
put_found raw (some c) files = Dict.put raw c files

pub scrape_loop : ScrapeEnv → List Bytes → SwarmState → Dict Counts → Dict Counts
unfolding scrape_hash
scrape_loop env [] s files = files
scrape_loop env (raw ∷ hashes) s files =
    scrape_loop env hashes s (put_found raw (scrape_hash env raw s) files)

-- The dictionary `files` of the answer.
pub handle_scrape : ScrapeEnv → Query → SwarmState → Dict Counts
unfolding scrape_loop
handle_scrape env q s =
    scrape_loop env (take max_scrape_hashes (Query.all_values (codes "info_hash") q)) s []

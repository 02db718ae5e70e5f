-- ===== src/Tracker/Scrape/Tests.antt =====
-- Runs of the scrape.
use weightless.Prelude.{◌≡◌, ◌↔◌, true, false, some, some, [], ◌∷◌, Bytes, codes, take, replicate}
use mathlib.Core.List.Perm
use weightless.Prelude.Dict
use weightless.Tracker.Announce.{failed}
use weightless.Tracker.Query
use weightless.Tracker.Query.{Query}
use weightless.Tracker.State.{init}
use weightless.Tracker.State.Swarms.{IsVisit}
use weightless.Tracker.Scrape.{ScrapeEnv, Counts, handle_scrape}
use weightless.Tracker.Scrape.Files.{is_asked, IsReport, handle_scrape-get}

abbrev hash : Bytes
hash = replicate 20 171

abbrev env : ScrapeEnv
env = record {
  open_tracker = false;
  completions = λ h. some 3;
  blocklist = λ h. failed;
  visit = λ m. m;
}

abbrev query : Query
query = (codes "info_hash", hash ∷ codes "short" ∷ hash ∷ []) ∷ []

in_order : IsVisit (λ m. m)
in_order m = Perm.refl m

abbrev counts : Counts
counts = record { complete = 0; downloaded = 3; incomplete = 0 }

handle_scrape-get_example : (Dict.get hash (handle_scrape env query init) ≡ some counts) ↔ (
    (is_asked hash (take 100 (Query.all_values (codes "info_hash") query)) ≡ true)
    × IsReport env init hash counts)
handle_scrape-get_example = handle_scrape-get env query init hash counts in_order

-- ===== src/Tracker/Registry.antt =====
-- The takedown of internal/tracker/registry.go, DELETE in HandleAPI, with registryAuthorized,
-- fillSwarmStats and sanitizeFilename. The tables are lists of rows, and `Faults` says which
-- statement the database fails.
pub mod Takedown
mod Tests
use weightless.Prelude.{
  ℕ, ◌+◌, Bool, true, false, not, ◌&&◌, ◌||◌, Option, none, some, List, [], ◌∷◌, ◌++◌, Bytes, ◌===◌,
  ltb, ◌==◌, if◌then◌else◌,
}
use weightless.Prelude.Dict
use weightless.Prelude.Dict.{Dict}
use weightless.Tracker.State.{Peer, SwarmState, get_counts}
use weightless.Tracker.Announce.{Lookup, row, no_rows, Env}

-- subtle.ConstantTimeCompare is equality.
abbrev pub registry_authorized : Bytes → Bytes → Bool
registry_authorized key header = if key === [] then true else header === key

pub record RegistryRow : Type 0 where
  pub info_hash : Bytes
  pub v1_info_hash : Bytes

pub record Database : Type 0 where
  pub registry : List RegistryRow
  pub peers : List Bytes
  pub blocklist : List Bytes

pub record Faults : Type 0 where
  pub lookup_fails : Bool
  pub delete_fails : Bool
  pub peers_fail : Bytes → Bool
  pub block_fails : Bytes → Bool

pub data Response : Type 0 where
  unauthorized missing_info_hash internal_error deleted : Response

pub record Handled : Type 0 where
  pub response : Response
  pub db : Database
  pub state : SwarmState

-- WHERE info_hash = ? OR v1_info_hash = ?
abbrev pub matches : Bytes → RegistryRow → Bool
matches hash r = r.info_hash === hash || r.v1_info_hash === hash

abbrev pub find_row : Bytes → List RegistryRow → Option RegistryRow
find_row hash [] = none
find_row hash (r ∷ rows) = if matches hash r then some r else find_row hash rows

abbrev pub delete_rows : Bytes → List RegistryRow → List RegistryRow
delete_rows hash [] = []
delete_rows hash (r ∷ rows) =
    let rest = delete_rows hash rows in if matches hash r then rest else r ∷ rest

abbrev pub contains_hash : Bytes → List Bytes → Bool
contains_hash h [] = false
contains_hash h (k ∷ hashes) = k === h || contains_hash h hashes

abbrev pub add_hash : Bytes → List Bytes → List Bytes
add_hash h hashes =
    if not (h === []) && not (contains_hash h hashes) then hashes ++ h ∷ [] else hashes

-- The hash, and both of the row's: each once, and no empty one.
abbrev pub takedown_hashes : Bytes → Option RegistryRow → List Bytes
takedown_hashes hash none = add_hash hash []
takedown_hashes hash (some r) = add_hash r.v1_info_hash (add_hash r.info_hash (add_hash hash []))

abbrev pub delete_peers : Bytes → List Bytes → List Bytes
delete_peers h [] = []
delete_peers h (k ∷ rows) = let rest = delete_peers h rows in if k === h then rest else k ∷ rest

-- INSERT OR IGNORE
abbrev pub block : Bytes → List Bytes → List Bytes
block h blocklist = if contains_hash h blocklist then blocklist else h ∷ blocklist

-- The loop over the hashes
pub take_down : Faults → List Bytes → Database → SwarmState → Handled
take_down faults [] db s = record { response = deleted; db = db; state = s }
take_down faults (h ∷ hashes) db s =
    let without : Database = record db { peers = delete_peers h db.peers } in
    let emptied : SwarmState = record s { peers = Dict.remove h s.peers } in
    let rest =
      take_down faults hashes (record without { blocklist = block h db.blocklist }) emptied in
    if faults.peers_fail h
    then record { response = internal_error; db = db; state = s }
    else if faults.block_fails h
    then record { response = internal_error; db = without; state = emptied }
    else rest

pub handle_delete : Bytes → Bytes → Bytes → Faults → Database → SwarmState → Handled
unfolding take_down
handle_delete key header hash faults db s =
    if not (registry_authorized key header)
    then record { response = unauthorized; db = db; state = s }
    else if hash === []
    then record { response = missing_info_hash; db = db; state = s }
    else if faults.lookup_fails
    then record { response = internal_error; db = db; state = s }
    else if faults.delete_fails
    then record { response = internal_error; db = db; state = s }
    else take_down faults (takedown_hashes hash (find_row hash db.registry))
        (record db { registry = delete_rows hash db.registry }) s

-- What an announce reads of the blocklist, when the query does not fail
abbrev pub blocklist_query : Database → Bytes → Lookup
blocklist_query db h = if contains_hash h db.blocklist then row else no_rows

pub record SwarmStats : Type 0 where
  pub seeders : ℕ
  pub leechers : ℕ

-- One entry: the v2 swarm, and the v1 swarm if it is another one.
abbrev pub fill_swarm_stats : (Dict Peer → Dict Peer) → RegistryRow → SwarmState → SwarmStats
fill_swarm_stats visit r s =
    let v2 = get_counts visit r.info_hash s in
    let v1 = get_counts visit r.v1_info_hash s in
    if not (r.v1_info_hash === []) && not (r.v1_info_hash === r.info_hash)
    then record { seeders = v2.0 + v1.0; leechers = v2.1 + v1.1 }
    else record { seeders = v2.0; leechers = v2.1 }

-- Of a name in UTF-8: a byte of a longer character is none of those that are dropped.
abbrev pub sanitize_filename : Bytes → Bytes
sanitize_filename [] = []
sanitize_filename (c ∷ name) =
    let rest = sanitize_filename name in
    if ltb c 32 || c == b'"' || c == b'\\' || c == 127 then rest else c ∷ rest

-- ===== src/Tracker/Registry/Takedown.antt =====
-- A takedown that is answered with success, and the announces after it.
use weightless.Prelude.{
  ◌≡◌, ◌⊎◌, refl, sym, ap, ◌∙◌, true, false, ◌||◌, Option, none, some, List, [], ◌∷◌, ◌++◌, Bytes,
  ◌===◌, ===_iff, ===_refl, arith, Bool-cases, inl, inr,
}
use weightless.Prelude.Dict
use weightless.Prelude.Dict.{Dict, get-remove}
use weightless.Tracker.State.{SwarmState}
use weightless.Tracker.Announce.{Env, blocked, refuse, execute_announce}
use weightless.Tracker.Recognize.{AnnounceParams, info_hash_hex}
use weightless.Tracker.Registry.{
  RegistryRow, Database, Faults, deleted, Handled, contains_hash, add_hash, takedown_hashes,
  find_row, block, take_down, handle_delete, registry_authorized, delete_rows, delete_peers,
  blocklist_query,
}

contains_hash-append :
    (h k : Bytes) (hashes : List Bytes)
    → contains_hash h (hashes ++ k ∷ []) ≡ (contains_hash h hashes || (k === h))
contains_hash-append h k [] = ground arith
contains_hash-append h k (j ∷ hashes) = ground (arith, contains_hash-append h k hashes)

contains_hash-add_hash :
    (h k : Bytes) (hashes : List Bytes)
    → contains_hash h hashes ≡ true
    → contains_hash h (add_hash k hashes) ≡ true
contains_hash-add_hash h k hashes e = ground (arith, e, contains_hash-append h k hashes)

added :
    (h : Bytes) (hashes : List Bytes)
    → (h === []) ≡ false
    → contains_hash h (add_hash h hashes) ≡ true
added h hashes e = ground (arith, e, contains_hash-append h h hashes, ===_refl h)

-- The hashes that a takedown is about: the one that is named, and those of its row.
abbrev pub IsNamedBy : Bytes → Option RegistryRow → Bytes → Type 0
IsNamedBy hash none h = h ≡ hash
IsNamedBy hash (some r) h = (h ≡ hash) ⊎ ((h ≡ r.info_hash) ⊎ (h ≡ r.v1_info_hash))

named-contains_hash :
    (hash : Bytes) (found : Option RegistryRow) (h : Bytes)
    → (h === []) ≡ false
    → IsNamedBy hash found h
    → contains_hash h (takedown_hashes hash found) ≡ true
named-contains_hash hash none h some_h e = ground (arith, e, some_h, added h [])
named-contains_hash hash (some r) h some_h (inl e) =
    let first : contains_hash h (add_hash hash []) ≡ true =
      ap (λ k. contains_hash h (add_hash k [])) (sym e) ∙ added h [] some_h in
    contains_hash-add_hash h r.v1_info_hash (add_hash r.info_hash (add_hash hash []))
      (contains_hash-add_hash h r.info_hash (add_hash hash []) first)
named-contains_hash hash (some r) h some_h (inr (inl e)) =
    let second : contains_hash h (add_hash r.info_hash (add_hash hash [])) ≡ true =
      ap (λ k. contains_hash h (add_hash k (add_hash hash []))) (sym e)
      ∙ added h (add_hash hash []) some_h in
    contains_hash-add_hash h r.v1_info_hash (add_hash r.info_hash (add_hash hash [])) second
named-contains_hash hash (some r) h some_h (inr (inr e)) =
    ap (λ k. contains_hash h (add_hash k (add_hash r.info_hash (add_hash hash [])))) (sym e)
    ∙ added h (add_hash r.info_hash (add_hash hash [])) some_h

-- What is taken down stays so for the rest of the loop.
pub record IsDown (h : Bytes) (db : Database) (s : SwarmState) : Type 0 where
  pub listed : contains_hash h db.blocklist ≡ true
  pub emptied : Dict.get h s.peers ≡ none

abbrev next_db : Bytes → Database → Database
next_db j db = record db { peers = delete_peers j db.peers; blocklist = block j db.blocklist }

abbrev next_state : Bytes → SwarmState → SwarmState
next_state j s = record s { peers = Dict.remove j s.peers }

removed :
    (h j : Bytes) (s : SwarmState)
    → Dict.get h s.peers ≡ none
    → Dict.get h (Dict.remove j s.peers) ≡ none
removed h j s e = ground (arith, e, get-remove j h s.peers)

blocked_still :
    (h j : Bytes) (blocklist : List Bytes)
    → contains_hash h blocklist ≡ true
    → contains_hash h (block j blocklist) ≡ true
blocked_still h j blocklist e = ground (arith, e)

blocked_now : (h : Bytes) (blocklist : List Bytes) → contains_hash h (block h blocklist) ≡ true
blocked_now h blocklist = ground (arith, ===_refl h)

IsDown-take_down :
    (faults : Faults) (hashes : List Bytes) (db : Database) (s : SwarmState) (h : Bytes)
    → IsDown h db s
    → IsDown h (take_down faults hashes db s).db (take_down faults hashes db s).state
unfolding take_down
IsDown-take_down faults [] db s h k = k
IsDown-take_down faults (j ∷ hashes) db s h k = elim (Bool-cases (faults.peers_fail j)) [
  | inl p ↦ rw p k
  | inr p ↦ elim (Bool-cases (faults.block_fails j)) [
    | inl b ↦ rw (p, b) (record { listed = k.listed; emptied = removed h j s k.emptied })
    | inr b ↦
        rw (p, b)
          (IsDown-take_down faults hashes (next_db j db) (next_state j s) h (record {
            listed = blocked_still h j db.blocklist k.listed;
            emptied = removed h j s k.emptied;
          }))
  ]
]

goes_on :
    (faults : Faults) (j : Bytes) (hashes : List Bytes) (db : Database) (s : SwarmState)
    → (take_down faults (j ∷ hashes) db s).response ≡ deleted
    → take_down faults (j ∷ hashes) db s ≡ take_down faults hashes (next_db j db) (next_state j s)
unfolding take_down
goes_on faults j hashes db s r = elim (Bool-cases (faults.peers_fail j)) [
  | inl p ↦ absurd (ground (arith, r, p))
  | inr p ↦ elim (Bool-cases (faults.block_fails j)) [
    | inl b ↦ absurd (ground (arith, r, p, b))
    | inr b ↦ rw (p, b) refl
  ]
]

take_down-IsDown :
    (faults : Faults) (hashes : List Bytes) (db : Database) (s : SwarmState) (h : Bytes)
    → contains_hash h hashes ≡ true
    → (take_down faults hashes db s).response ≡ deleted
    → IsDown h (take_down faults hashes db s).db (take_down faults hashes db s).state
take_down-IsDown faults [] db s h e r = absurd (ground (arith, e))
take_down-IsDown faults (j ∷ hashes) db s h e r =
    let on = goes_on faults j hashes db s r in
    let r' = sym (ap Handled.response on) ∙ r in
    rw on (elim (Bool-cases (j === h)) [
      | inl here ↦
          let same = (===_iff j h).0 here in
          IsDown-take_down faults hashes (next_db j db) (next_state j s) h (record {
            listed =
                ap (λ k. contains_hash h (block k db.blocklist)) same ∙ blocked_now h db.blocklist;
            emptied = get-remove j h s.peers ∙ rw here refl;
          })
      | inr there ↦
          let later : contains_hash h hashes ≡ true = ground (arith, e, there) in
          take_down-IsDown faults hashes (next_db j db) (next_state j s) h later r'
    ])

-- A takedown that succeeds has gone through all its guards.
handle_delete-take_down :
    (key header hash : Bytes) (faults : Faults) (db : Database) (s : SwarmState)
    → (handle_delete key header hash faults db s).response ≡ deleted
    → handle_delete key header hash faults db s
      ≡ take_down faults
          (takedown_hashes hash (find_row hash db.registry))
          (record db { registry = delete_rows hash db.registry })
          s
unfolding handle_delete
handle_delete-take_down key header hash faults db s r =
    elim (Bool-cases (registry_authorized key header)) [
      | inr no_key ↦ absurd (ground (arith, r, no_key))
      | inl key_ok ↦ elim (Bool-cases (hash === [])) [
        | inl empty ↦ absurd (ground (arith, r, key_ok, empty))
        | inr filled ↦ elim (Bool-cases faults.lookup_fails) [
          | inl l ↦ absurd (ground (arith, r, key_ok, filled, l))
          | inr l ↦ elim (Bool-cases faults.delete_fails) [
            | inl d ↦ absurd (ground (arith, r, key_ok, filled, l, d))
            | inr d ↦ rw (key_ok, filled, l, d) refl
          ]
        ]
      ]
    ]

handle_delete-IsDown :
    (key header hash : Bytes) (faults : Faults) (db : Database) (s : SwarmState) (h : Bytes)
    → (h === []) ≡ false
    → IsNamedBy hash (find_row hash db.registry) h
    → (handle_delete key header hash faults db s).response ≡ deleted
    → IsDown h
        (handle_delete key header hash faults db s).db
        (handle_delete key header hash faults db s).state
handle_delete-IsDown key header hash faults db s h some_h named r =
    let found = find_row hash db.registry in
    let e = handle_delete-take_down key header hash faults db s r in
    let r' = sym (ap Handled.response e) ∙ r in
    rw e (
      take_down-IsDown faults (takedown_hashes hash found)
        (record db { registry = delete_rows hash db.registry }) s h
        (named-contains_hash hash found h some_h named) r')

-- When a takedown is answered with success, the swarm of the hash that it names, and the swarms of both hashes of the registry row that it found, are gone from memory, and with the blocklist that it leaves every announce of one of these hashes that is not empty is refused as blocked and changes nothing, in whatever state it comes.
pub execute_announce-handle_delete :
    (key header hash : Bytes) (faults : Faults) (db : Database) (s : SwarmState) (env : Env)
    (remote_addr user : Bytes) (p : AnnounceParams) (t : SwarmState)
    → (info_hash_hex p === []) ≡ false
    → IsNamedBy hash (find_row hash db.registry) (info_hash_hex p)
    → (handle_delete key header hash faults db s).response ≡ deleted
    → (Dict.get (info_hash_hex p) (handle_delete key header hash faults db s).state.peers ≡ none)
      × (execute_announce
            (record env {
              blocklist = blocklist_query (handle_delete key header hash faults db s).db;
            })
            remote_addr
            user
            p
            t
          ≡ refuse blocked t)
unfolding execute_announce
execute_announce-handle_delete key header hash faults db s env remote_addr user p t some_h named r =
    let k = handle_delete-IsDown key header hash faults db s (info_hash_hex p) some_h named r in
    (k.emptied, rw k.listed refl)

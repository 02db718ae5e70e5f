-- ===== src/Tracker/Scrape/Files.antt =====
-- What a scrape reports: every hash asked for that is known and not blocked, and no other.
use weightless.Prelude.{
  ℕ, some, length, arith, subst, ◌==◌, ◌↔◌, ◌≡◌, refl, sym, ap, ◌∙◌, ◌⊎◌, Bool, true, false, ◌||◌,
  none, List, [], ◌∷◌, Bytes, codes, ◌===◌, ===_iff, if◌then◌else◌, take, Bool-cases, Option-cases,
  inl, inr,
}
use weightless.Prelude.Dict
use weightless.Prelude.Dict.{Dict, get-put}
use weightless.Tracker.Query
use weightless.Tracker.Query.{Query}
use weightless.Prelude.Hex.{hex_encode}
use weightless.Prelude.Sums.{total}
use weightless.Tracker.Announce.{is_row}
use weightless.Tracker.State.{SwarmState, swarm}
use weightless.Tracker.State.Swarms.{IsVisit, is_seeder, is_leecher, get_counts_lem}
use weightless.Tracker.Scrape.{
  ScrapeEnv, Counts, counts_of, scrape_hash, put_found, scrape_loop, handle_scrape,
}

abbrev pub is_asked : Bytes → List Bytes → Bool
is_asked raw [] = false
is_asked raw (h ∷ hashes) = h === raw || is_asked raw hashes

-- What stood under a hash before it was asked for
abbrev IsOwn : ScrapeEnv → SwarmState → Bytes → Dict Counts → Type 0
IsOwn env s raw files = (Dict.get raw files ≡ none) ⊎ (Dict.get raw files ≡ scrape_hash env raw s)

get-put_found :
    (env : ScrapeEnv) (s : SwarmState) (h raw : Bytes) (files : Dict Counts)
    → IsOwn env s raw files
    → Dict.get raw (put_found h (scrape_hash env h s) files)
      ≡ (if h === raw then scrape_hash env raw s else Dict.get raw files)
get-put_found env s h raw files own =
    let same : (h === raw) ≡ true → scrape_hash env h s ≡ scrape_hash env raw s =
      λ e. ap (λ k. scrape_hash env k s) ((===_iff h raw).0 e) in
    elim (Option-cases (scrape_hash env h s)) [
      | inl e ↦ rw e (elim (Bool-cases (h === raw)) [
        | inl own_hash ↦
            rw own_hash
              (elim own [ inl absent ↦ absent ∙ sym e ∙ same own_hash | inr there ↦ there ])
        | inr other ↦ rw other refl
      ])
      | inr (c, e) ↦ rw e (
          get-put h raw c files ∙ elim (Bool-cases (h === raw)) [
            | inl own_hash ↦ rw own_hash (sym e ∙ same own_hash)
            | inr other ↦ rw other refl
          ])
    ]

put_found-IsOwn :
    (env : ScrapeEnv) (s : SwarmState) (h raw : Bytes) (files : Dict Counts)
    → IsOwn env s raw files
    → IsOwn env s raw (put_found h (scrape_hash env h s) files)
put_found-IsOwn env s h raw files own =
    let step = get-put_found env s h raw files own in
    elim (Bool-cases (h === raw)) [
      | inl same ↦ inr (step ∙ rw same refl)
      | inr other ↦ elim own [
        | inl absent ↦ inl (step ∙ rw other absent)
        | inr there ↦ inr (step ∙ rw other there)
      ]
    ]

get-scrape_loop :
    (env : ScrapeEnv) (raw : Bytes) (hashes : List Bytes) (s : SwarmState) (files : Dict Counts)
    → IsOwn env s raw files
    → Dict.get raw (scrape_loop env hashes s files)
      ≡ (if is_asked raw hashes then scrape_hash env raw s else Dict.get raw files)
unfolding scrape_loop
get-scrape_loop env raw [] s files own = refl
get-scrape_loop env raw (h ∷ hashes) s files own =
    let next = put_found h (scrape_hash env h s) files in
    get-scrape_loop env raw hashes s next (put_found-IsOwn env s h raw files own)
    ∙ rw (get-put_found env s h raw files own) (elim (Bool-cases (h === raw)) [
      | inl same ↦ rw same (elim (Bool-cases (is_asked raw hashes)) [
        | inl again ↦ rw again refl
        | inr last ↦ rw last refl
      ])
      | inr other ↦ rw other refl
    ])

-- A hash that a scrape reports on, with its number of completions: it has 20 or 32 bytes and is not
-- blocked, and it is registered, or has no row and the tracker is open.
pub data IsReported (env : ScrapeEnv) (raw : Bytes) : ℕ → Type 0 where
  registered :
      (n : ℕ)
      → (length raw ≡ 20) ⊎ (length raw ≡ 32)
      → is_row (env.blocklist (hex_encode raw)) ≡ false
      → env.completions (hex_encode raw) ≡ some n
      → IsReported env raw n
  unregistered :
      (length raw ≡ 20) ⊎ (length raw ≡ 32)
      → is_row (env.blocklist (hex_encode raw)) ≡ false
      → env.completions (hex_encode raw) ≡ none
      → env.open_tracker ≡ true
      → IsReported env raw 0

-- What is reported under a hash
pub record IsReport (env : ScrapeEnv) (s : SwarmState) (raw : Bytes) (c : Counts) : Type 0 where
  pub known : IsReported env raw c.downloaded
  pub complete : c.complete ≡ total is_seeder (swarm (hex_encode raw) s)
  pub incomplete : c.incomplete ≡ total is_leecher (swarm (hex_encode raw) s)

counts_of-IsReport :
    (env : ScrapeEnv) (s : SwarmState) (raw : Bytes) (n : ℕ)
    → IsVisit env.visit
    → IsReported env raw n
    → IsReport env s raw (counts_of env (hex_encode raw) n s)
counts_of-IsReport env s raw n visit known =
    let counts = (get_counts_lem env.visit (hex_encode raw) s visit).0 in
    record { known = known; complete = ap (λ p. p.0) counts; incomplete = ap (λ p. p.1) counts }

counts_eq :
    {a b : Counts}
    → a.complete ≡ b.complete
    → a.downloaded ≡ b.downloaded
    → a.incomplete ≡ b.incomplete
    → a ≡ b
counts_eq e f g = λ i. record { complete = e i; downloaded = f i; incomplete = g i }

some_injective : {a b : Counts} → some a ≡ some b → a ≡ b
some_injective h = cc

sized :
    (raw : Bytes)
    → (length raw == 20 || length raw == 32) ≡ true
    → (length raw ≡ 20) ⊎ (length raw ≡ 32)
sized raw h = elim (Bool-cases (length raw == 20)) [
  | inl short ↦ inl (ground (arith, short))
  | inr other ↦ inr (ground (arith, h, other))
]

has_size :
    (raw : Bytes)
    → (length raw ≡ 20) ⊎ (length raw ≡ 32)
    → (length raw == 20 || length raw == 32) ≡ true
has_size raw (inl e) = ground (arith, e)
has_size raw (inr e) = ground (arith, e)

reported-scrape_hash :
    (env : ScrapeEnv) (s : SwarmState) (raw : Bytes) (n : ℕ)
    → IsReported env raw n
    → scrape_hash env raw s ≡ some (counts_of env (hex_encode raw) n s)
unfolding scrape_hash
reported-scrape_hash env s raw n (registered m size free row) =
    rw (has_size raw size, row, free) refl
reported-scrape_hash env s raw n (unregistered size free row open_) =
    rw (has_size raw size, row, open_, free) refl

-- A hash that gets counts is one that is reported.
scrape_hash-reported :
    (env : ScrapeEnv) (s : SwarmState) (raw : Bytes) (c : Counts)
    → scrape_hash env raw s ≡ some c
    → (n : ℕ) × IsReported env raw n
unfolding scrape_hash
scrape_hash-reported env s raw c h = elim (Bool-cases (length raw == 20 || length raw == 32)) [
  | inr wrong ↦ absurd (ground (arith, h, wrong))
  | inl right ↦ elim (Option-cases (env.completions (hex_encode raw))) [
    | inr (n, row) ↦ elim (Bool-cases (is_row (env.blocklist (hex_encode raw)))) [
      | inl banned ↦ absurd (ground (arith, h, right, row, banned))
      | inr free ↦ (n, registered n (sized raw right) free row)
    ]
    | inl no_row ↦ elim (Bool-cases env.open_tracker) [
      | inr closed ↦ absurd (ground (arith, h, right, no_row, closed))
      | inl open_ ↦ elim (Bool-cases (is_row (env.blocklist (hex_encode raw)))) [
        | inl banned ↦ absurd (ground (arith, h, right, no_row, open_, banned))
        | inr free ↦ (0, unregistered (sized raw right) free no_row open_)
      ]
    ]
  ]
]

scrape_hash_iff :
    (env : ScrapeEnv) (s : SwarmState) (raw : Bytes) (c : Counts)
    → IsVisit env.visit
    → (scrape_hash env raw s ≡ some c) ↔ IsReport env s raw c
scrape_hash_iff env s raw c visit = (
  λ h.
      let (n, known) = scrape_hash-reported env s raw c h in
      subst (IsReport env s raw) (some_injective (sym (reported-scrape_hash env s raw n known) ∙ h))
        (counts_of-IsReport env s raw n visit known),
  λ r.
      let it = counts_of-IsReport env s raw c.downloaded visit r.known in
      reported-scrape_hash env s raw c.downloaded r.known
      ∙ ap some (counts_eq (it.complete ∙ sym r.complete) refl (it.incomplete ∙ sym r.incomplete)),
)

get-handle_scrape :
    (env : ScrapeEnv) (q : Query) (s : SwarmState) (raw : Bytes)
    → Dict.get raw (handle_scrape env q s) ≡ (
        if is_asked raw (take 100 (Query.all_values (codes "info_hash") q))
        then scrape_hash env raw s
        else none)
unfolding handle_scrape
get-handle_scrape env q s raw =
    get-scrape_loop env raw (take 100 (Query.all_values (codes "info_hash") q)) s []
      (inl (unfold Dict.get in refl))
    ∙ unfold Dict.get in refl

-- A scrape reports counts under a hash exactly when the hash is among the first 100 asked for, has 20
-- or 32 bytes, is not blocked, and is registered, or has no row and the tracker is open; the counts
-- are the peers of its swarm that have nothing left to download, the completions of its row (0
-- without one), and its other peers. It does not matter in which order a swarm is visited, and a
-- hash may be asked for several times.
pub handle_scrape-get :
    (env : ScrapeEnv) (q : Query) (s : SwarmState) (raw : Bytes) (c : Counts)
    → IsVisit env.visit
    → (Dict.get raw (handle_scrape env q s) ≡ some c) ↔ (
        (is_asked raw (take 100 (Query.all_values (codes "info_hash") q)) ≡ true)
        × IsReport env s raw c)
handle_scrape-get env q s raw c visit =
    let asked = is_asked raw (take 100 (Query.all_values (codes "info_hash") q)) in
    rw (get-handle_scrape env q s raw) (elim (Bool-cases asked) [
      | inl yes_asked ↦ rw yes_asked (
        λ h. (refl, (scrape_hash_iff env s raw c visit).0 h),
        λ p. (scrape_hash_iff env s raw c visit).1 p.1,
      )
      | inr not_asked ↦
          rw not_asked (λ h. absurd (ground (arith, h)), λ p. absurd (ground (arith, p.0)))
    ])

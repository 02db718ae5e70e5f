-- ===== src/Client/Swarm/Workers.antt =====
-- Which workers wait, and for what.
use weightless.Prelude.{
  ℕ, ◌≡◌, ◌⊎◌, refl, ap, Bool, true, false, List, [], ◌∷◌, ◌++◌, arith, Bool-cases, inl, inr,
}
use weightless.Client.Swarm.{
  Worker, seeking, gone, taken, dialing, connected, examining, fetching, harvesting, delivering,
}
use weightless.Client.Swarm.Tokens.{holds, held, examines_it, in_exam, flies, flying}
use weightless.Client.Swarm.Awake.{wakes, awake}

-- A worker that waits for nothing
abbrev pub is_active : Worker → Bool
is_active seeking = false
is_active gone = false
is_active (connected addr) = false
is_active (taken addr) = true
is_active (dialing addr) = true
is_active (examining addr j) = true
is_active (fetching addr j) = true
is_active (harvesting addr j result pex) = true
is_active (delivering conn j result) = true

-- A worker that waits for a piece
abbrev pub is_connected : Worker → Bool
is_connected (connected addr) = true
is_connected w = false

abbrev pub is_seeking : Worker → Bool
is_seeking seeking = true
is_seeking w = false

pub record Found (p : Worker → Bool) (ws : List Worker) : Type 0 where
  pub before : List Worker
  pub after : List Worker
  pub it : Worker
  pub there : ws ≡ before ++ it ∷ after
  pub is_it : p it ≡ true

abbrev pub NoneOf : (Worker → Bool) → List Worker → Type 0
NoneOf p [] = Unit
NoneOf p (w ∷ ws) = (p w ≡ false) × NoneOf p ws

pub find : (p : Worker → Bool) (ws : List Worker) → Found p ws ⊎ NoneOf p ws
find p [] = inr tt
find p (w ∷ ws) = elim (Bool-cases (p w)) [
  | inl yes_it ↦ inl (record { before = []; after = ws; it = w; there = refl; is_it = yes_it })
  | inr not_it ↦ elim (find p ws) [
    | inl f ↦ inl (record {
      before = w ∷ f.before;
      after = f.after;
      it = f.it;
      there = ap (◌∷◌ w) f.there;
      is_it = f.is_it;
    })
    | inr rest ↦ inr (not_it, rest)
  ]
]

inactive_holds : (i : ℕ) (w : Worker) → is_active w ≡ false → holds i w ≡ 0
inactive_holds i seeking h = refl
inactive_holds i gone h = refl
inactive_holds i (connected addr) h = refl
inactive_holds i (taken addr) h = cc
inactive_holds i (dialing addr) h = cc
inactive_holds i (examining addr j) h = cc
inactive_holds i (fetching addr j) h = cc
inactive_holds i (harvesting addr j result pex) h = cc
inactive_holds i (delivering conn j result) h = cc

pub none_held : (i : ℕ) (ws : List Worker) → NoneOf is_active ws → held i ws ≡ 0
none_held i [] h = refl
none_held i (w ∷ ws) (h, hs) = omega (arith, inactive_holds i w h, none_held i ws hs)

inactive_examines : (i : ℕ) (w : Worker) → is_active w ≡ false → examines_it i w ≡ 0
inactive_examines i seeking h = refl
inactive_examines i gone h = refl
inactive_examines i (connected addr) h = refl
inactive_examines i (taken addr) h = cc
inactive_examines i (dialing addr) h = cc
inactive_examines i (examining addr j) h = cc
inactive_examines i (fetching addr j) h = cc
inactive_examines i (harvesting addr j result pex) h = cc
inactive_examines i (delivering conn j result) h = cc

pub none_examined : (i : ℕ) (ws : List Worker) → NoneOf is_active ws → in_exam i ws ≡ 0
none_examined i [] h = refl
none_examined i (w ∷ ws) (h, hs) = omega (arith, inactive_examines i w h, none_examined i ws hs)

idle_flies : (w : Worker) → is_active w ≡ false → is_connected w ≡ false → flies w ≡ 0
idle_flies seeking h k = refl
idle_flies gone h k = refl
idle_flies (connected addr) h k = cc
idle_flies (taken addr) h k = cc
idle_flies (dialing addr) h k = cc
idle_flies (examining addr j) h k = cc
idle_flies (fetching addr j) h k = cc
idle_flies (harvesting addr j result pex) h k = cc
idle_flies (delivering conn j result) h k = cc

pub none_flying : (ws : List Worker) → NoneOf is_active ws → NoneOf is_connected ws → flying ws ≡ 0
none_flying [] h k = refl
none_flying (w ∷ ws) (h, hs) (k, ks) = omega (arith, idle_flies w h k, none_flying ws hs ks)

gone_wakes :
    (w : Worker) → is_active w ≡ false → is_connected w ≡ false → is_seeking w ≡ false → wakes w ≡ 0
gone_wakes seeking h k l = cc
gone_wakes gone h k l = refl
gone_wakes (connected addr) h k l = cc
gone_wakes (taken addr) h k l = cc
gone_wakes (dialing addr) h k l = cc
gone_wakes (examining addr j) h k l = cc
gone_wakes (fetching addr j) h k l = cc
gone_wakes (harvesting addr j result pex) h k l = cc
gone_wakes (delivering conn j result) h k l = cc

pub none_awake :
    (ws : List Worker)
    → NoneOf is_active ws
    → NoneOf is_connected ws
    → NoneOf is_seeking ws
    → awake ws ≡ 0
none_awake [] h k l = refl
none_awake (w ∷ ws) (h, hs) (k, ks) (l, ls) =
    omega (arith, gone_wakes w h k l, none_awake ws hs ks ls)

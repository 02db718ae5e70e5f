-- ===== src/Client/Download/Tests.antt =====
-- A run of the download, with a piece of three bytes and the bytes as their own digest.
use weightless.Prelude.{ℕ, ◌≡◌, refl, Bool, true, none, some, List, [], ◌∷◌, Bytes}
use weightless.Client.Wire.{Message}
use weightless.Client.Download.{Input, received, piece, step, on_message, run_loop, download_piece}
use weightless.Client.Download.Safety.{IsVerified, download_piece-IsVerified}

abbrev unchoke : Message
unchoke = record { id = 1; payload = [] }

abbrev block : ℕ → Bytes → Message
block begin bytes = record { id = 7; payload = 0 ∷ 0 ∷ 0 ∷ 4 ∷ 0 ∷ 0 ∷ 0 ∷ begin ∷ bytes }

-- The second block comes twice.
abbrev inputs : List (Input × Bool)
inputs =
    (received none, true)
    ∷ (received (some unchoke), true)
    ∷ (received (some (block 0 (5 ∷ 6 ∷ []))), true)
    ∷ (received (some (block 0 (9 ∷ 9 ∷ []))), true)
    ∷ (received (some (block 2 (7 ∷ []))), true)
    ∷ []

downloaded : download_piece (λ s. s) 4 3 (5 ∷ 6 ∷ 7 ∷ []) true true inputs ≡ piece (5 ∷ 6 ∷ 7 ∷ [])
unfolding download_piece run_loop step on_message
downloaded = refl

download_piece-IsVerified_example :
    IsVerified
      (λ s. s)
      3
      (5 ∷ 6 ∷ 7 ∷ [])
      (download_piece (λ s. s) 4 3 (5 ∷ 6 ∷ 7 ∷ []) true true inputs)
download_piece-IsVerified_example =
    download_piece-IsVerified (λ s. s) 4 3 (5 ∷ 6 ∷ 7 ∷ []) true true inputs

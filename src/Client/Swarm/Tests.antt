-- ===== src/Client/Swarm/Tests.antt =====
-- A download of one piece by one worker.
use weightless.Prelude.{◌<◌, ◌≡◌, ◌⊎◌, refl, false, some, [], ◌∷◌, Bytes, codes, arith}
use weightless.Prelude.Dict
use weightless.Prelude.Dict.{Dict}
use weightless.Prelude.Path.{is_abs, volume_name, clean, clean_parts}
use weightless.Prelude.Split.{split}
use weightless.Client.Storage.{resolve, write_piece, write_loop, span}
use weightless.Client.Swarm.{
  completed, seeking, taken, dialing, connected, examining, fetching, harvesting, delivering,
  holding, Config, Swarm, add_peers, start, start_workers, take_address, count_in_flight, examined,
  store, mark, count_completion, status_at, finished, start_result, takes, counts, dials, pulls,
  examines, fetches, harvests, receives, stores, marks, completes, Reach, here, next,
}
use weightless.Client.Swarm.Invariant.{Inv}
use weightless.Client.Swarm.Progress.{Reach-Inv, start_result-completed}
use weightless.Client.Swarm.Moves.{WorkerMoves, LoopMoves}
use weightless.Client.Swarm.Liveness.{IsStalled, IsStalled-or-Moves}

abbrev config : Config
config = record {
  piece_count = 1;
  piece_length = 4;
  hash_bytes = 20;
  files = record { path = codes "f"; size = 2 } ∷ [];
  io_fails = λ path. false;
}

abbrev empty_file : Dict Bytes
empty_file = (codes "f", 0 ∷ 0 ∷ []) ∷ []

abbrev addr : Bytes
addr = codes "10.0.0.1:6881"

abbrev begun : Swarm
begun = start config (addr ∷ []) empty_file

abbrev piece : Bytes
piece = 8 ∷ 9 ∷ []

abbrev with_address : Swarm
with_address = take_address [] begun

abbrev counted : Swarm
counted = count_in_flight with_address

abbrev pulled : Swarm
pulled = record counted { work_chan = [] }

abbrev working : Swarm
working = examined 0 pulled

abbrev received : Swarm
received = record working { hand = holding 0 (some piece) }

abbrev on_disk : Swarm
on_disk = store config 0 piece received

abbrev marked_it : Swarm
marked_it = mark 0 on_disk

abbrev ended : Swarm
ended = count_completion config marked_it

fetching_run : Reach config begun (start_workers 1) working (fetching addr 0 ∷ [])
unfolding start add_peers
fetching_run =
    next pulled working (examining addr 0 ∷ []) (fetching addr 0 ∷ [])
      (next counted pulled (connected addr ∷ []) (examining addr 0 ∷ [])
        (next counted counted (dialing addr ∷ []) (connected addr ∷ [])
          (next with_address counted (taken addr ∷ []) (dialing addr ∷ [])
            (next begun with_address (seeking ∷ []) (taken addr ∷ []) here
              (takes begun [] [] addr [] refl))
            (counts with_address [] [] addr))
          (dials counted [] [] addr))
        (pulls counted [] [] addr 0 [] refl))
      (examines pulled [] [] addr 0)

delivered_run : Reach config begun (start_workers 1) received (connected addr ∷ [])
unfolding start add_peers
delivered_run =
    next working received (delivering (some addr) 0 (some piece) ∷ []) (connected addr ∷ [])
      (next working working (harvesting addr 0 (some piece) [] ∷ [])
        (delivering (some addr) 0 (some piece) ∷ [])
        (next working working (fetching addr 0 ∷ []) (harvesting addr 0 (some piece) [] ∷ [])
          fetching_run (fetches working [] [] addr 0 (some piece) []))
        (harvests working [] [] addr 0 (some piece)))
      (receives working [] [] (some addr) 0 (some piece) refl refl)

whole_run : Reach config begun (start_workers 1) ended (connected addr ∷ [])
unfolding start add_peers write_piece write_loop span resolve is_abs volume_name clean clean_parts
    split Dict.get Dict.put
whole_run =
    next marked_it ended (connected addr ∷ []) (connected addr ∷ [])
      (next on_disk marked_it (connected addr ∷ []) (connected addr ∷ [])
        (next received on_disk (connected addr ∷ []) (connected addr ∷ []) delivered_run
          (stores received (connected addr ∷ []) 0 piece refl))
        (marks on_disk (connected addr ∷ []) 0 refl))
      (completes marked_it (connected addr ∷ []) refl)

ended_finished : start_result config ended ended.failure ≡ finished
unfolding start add_peers write_piece write_loop span resolve is_abs volume_name clean clean_parts
    split Dict.get Dict.put
ended_finished = refl

Reach-Inv_example : Inv config ended (connected addr ∷ [])
Reach-Inv_example = Reach-Inv (addr ∷ []) empty_file 1 whole_run

start_result-completed_example : status_at ended.pieces 0 ≡ some completed
start_result-completed_example =
    start_result-completed (addr ∷ []) empty_file 1 whole_run ended_finished 0 (omega arith)

begun_open : begun.cancelled ≡ false
unfolding start add_peers
begun_open = refl

begun_incomplete : begun.completed_count < config.piece_count
unfolding start add_peers
begun_incomplete = omega arith

IsStalled-or-Moves_example :
    IsStalled begun
    ⊎ WorkerMoves config begun (start_workers 1)
    ⊎ LoopMoves config begun (start_workers 1)
IsStalled-or-Moves_example =
    IsStalled-or-Moves (addr ∷ []) empty_file 1 here begun_open begun_incomplete

-- ===== src/Client/Swarm/Steps.antt =====
-- Every step keeps the invariant.
use weightless.Prelude.{refl, List, ◌∷◌, ◌++◌, arith}
use weightless.Client.Swarm.{
  Worker, seeking, gone, taken, dialing, connected, fetching, harvesting, Config, Swarm, add_peer,
  take_address, count_in_flight, release, Step, takes, counts, dials, misses, pulls, examines,
  fetches, offers, harvests, receives, drains, quits, leaves, unmarks, requeues, forgets, stores,
  marks, completes, fails, finishes, polls, cancels,
}
use weightless.Client.Swarm.Invariant.{Inv, add_peer-Inv}
use weightless.Client.Swarm.Working.{
  moved, pull-Inv, examine-Inv, harvest-Inv, receive-Inv, drain-Inv,
}
use weightless.Client.Swarm.Collecting.{
  unmark-Inv, requeue-Inv, forget-Inv, store-Inv, mark-Inv, complete-Inv, fail-Inv, finish-Inv,
  poll-Inv, cancel-Inv,
}

pub Step-Inv :
    {c : Config} {s t : Swarm} {ws ws' : List Worker} → Step c s ws t ws' → Inv c s ws → Inv c t ws'
Step-Inv {c} (takes s before after addr peers e) k =
    moved c s (take_address peers s) before seeking (taken addr) after (λ i. refl) (λ i. refl) refl
      refl refl refl refl refl (omega arith) k
Step-Inv {c} (counts s before after addr) k =
    moved c s (count_in_flight s) before (taken addr) (dialing addr) after (λ i. refl) (λ i. refl)
      refl refl refl refl refl refl (omega arith) k
Step-Inv {c} (dials s before after addr) k =
    moved c s s before (dialing addr) (connected addr) after (λ i. refl) (λ i. refl) refl refl refl
      refl refl refl (omega arith) k
Step-Inv {c} (misses s before after addr) k =
    moved c s (release s) before (dialing addr) seeking after (λ i. refl) (λ i. refl) refl refl refl
      refl refl refl (omega arith) k
Step-Inv {c} (pulls s before after addr index work e) k =
    pull-Inv c s before after addr index work e k
Step-Inv {c} (examines s before after addr index) k = examine-Inv c s before after addr index k
Step-Inv {c} (fetches s before after addr index result pex) k =
    moved c s s before (fetching addr index) (harvesting addr index result pex) after (λ i. refl)
      (λ i. refl) refl refl refl refl refl refl (omega arith) k
Step-Inv {c} (offers s before after addr index result a pex) k =
    moved c (add_peer a s) (add_peer a s) before (harvesting addr index result (a ∷ pex))
      (harvesting addr index result pex) after (λ i. refl) (λ i. refl) refl refl refl refl refl refl
      (omega arith)
      (add_peer-Inv c a s (before ++ harvesting addr index result (a ∷ pex) ∷ after) k)
Step-Inv {c} (harvests s before after addr index result) k =
    harvest-Inv c s before after addr index result k
Step-Inv {c} (receives s before after conn index result h e) k =
    receive-Inv c s before after conn index result k e
Step-Inv {c} (drains s before after conn index result closed) k =
    drain-Inv c s before after conn index result k closed
Step-Inv {c} (quits s before after over) k =
    moved c s s before seeking gone after (λ i. refl) (λ i. refl) refl refl refl refl refl refl
      (omega arith) k
Step-Inv {c} (leaves s before after addr over) k =
    moved c s (release s) before (connected addr) gone after (λ i. refl) (λ i. refl) refl refl refl
      refl refl refl (omega arith) k
Step-Inv {c} (unmarks s ws index e) k = unmark-Inv c s ws k index e
Step-Inv {c} (requeues s ws index e room) k = requeue-Inv c s ws k index e
Step-Inv {c} (forgets s ws index e over) k = forget-Inv c s ws k index e over
Step-Inv {c} (stores s ws index piece e) k = store-Inv c s ws k index piece e
Step-Inv {c} (marks s ws index e) k = mark-Inv c s ws k index e
Step-Inv {c} (completes s ws e) k = complete-Inv c s ws k e
Step-Inv {c} (fails s ws index e) k = fail-Inv c s ws k index e
Step-Inv {c} (finishes s ws e) k = finish-Inv c s ws k e
Step-Inv {c} (polls s ws) k = poll-Inv c s ws k
Step-Inv {c} (cancels s ws) k = cancel-Inv c s ws k

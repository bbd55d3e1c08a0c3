-- ===== src/Realtime/Tests.antt =====
-- Runs of the theorems on sockets.
use sendly.Common.{◌≤◌, true, false, ◌≡◌, ◌⊎◌, refl, List, [], ◌∷◌, ◌++◌, length, All, arith}
use sendly.Models.{Bytes}
use sendly.Realtime.Conn.{new_conn, sends, writes, hangs_up, finishes, Step, run}
use sendly.Realtime.Hub.{
  Hub, Published, publish, add, shutdown, adds, delivers, handle_events, Event,
}
use sendly.Realtime.Order.{queued, run-ordered}
use sendly.Realtime.Closed.{IsDone, shutdown-IsDone}
use sendly.Realtime.Delivered.{Delivered, publish-reaches}

abbrev steps : List Step
steps = sends false (1 ∷ []) ∷ sends false (2 ∷ []) ∷ writes false ∷ hangs_up ∷ finishes ∷ []

run-ordered_example :
    ((rest : List Bytes) × ((run steps (new_conn 1 "t")).written ++ rest
        ≡ queued steps (new_conn 1 "t")))
    × (length (run steps (new_conn 1 "t")).out ≤ 32)
run-ordered_example = run-ordered steps (new_conn 1 "t") (omega arith)

abbrev hub : Hub
hub = record { conns = new_conn 1 "t" ∷ new_conn 2 "u" ∷ []; closing = false }

abbrev events : List Event
events = delivers (λ id. false) "t" (1 ∷ []) ∷ adds 3 "u" ∷ []

shutdown-IsDone_example :
    All IsDone (handle_events events (shutdown hub)).conns
    × IsDone (add 4 "t" (handle_events events (shutdown hub))).0
    × ((add 4 "t" (handle_events events (shutdown hub))).0.serving ≡ false)
    × ((add 4 "t" (handle_events events (shutdown hub))).1 ≡ handle_events events (shutdown hub))
shutdown-IsDone_example = shutdown-IsDone events hub 4 "t"

abbrev published : Published
published = record { hub = hub; notified = [] }

publish-reaches_example :
    (publish true 9000 false (λ id. false) "t" (1 ∷ []) published
      ≡ record { hub = hub; notified = ("t", 1 ∷ []) ∷ [] })
    ⊎ (((publish true 9000 false (λ id. false) "t" (1 ∷ []) published).notified ≡ [])
        × Delivered "t"
            (1 ∷ [])
            1
            (new_conn 1 "t")
            (publish true 9000 false (λ id. false) "t" (1 ∷ []) published).hub)
publish-reaches_example =
    publish-reaches true 9000 false (λ id. false) "t" (1 ∷ []) published 1 (new_conn 1 "t") refl
      refl

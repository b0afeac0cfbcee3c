-- ===== src/Tests/Threads.antt =====
-- The counters with threads.
use mem_sentry.Base.{◌≡◌, refl, List, [], ◌∷◌, map, arith}
use mem_sentry.Stats.{zero_stats}
use mem_sentry.Stats.History.{Event, allocates, frees}
use mem_sentry.Stats.Interleaved.{
  allocated_bytes, freed_bytes, current_bytes, allocations, releases, active, value, CounterStep,
  adds, subtracts, thread_steps, run, Interleaves, finished, moves, in_turn,
}
use mem_sentry.Stats.Interleaved.Totals.{run-in_turn}

-- Two threads, one with an allocation and one with a free, that take turns.
abbrev two_threads : List (List Event)
two_threads = (allocates 100 ∷ []) ∷ (frees 60 ∷ []) ∷ []

abbrev turns : List CounterStep
turns =
    adds allocated_bytes 100
    ∷ adds freed_bytes 60
    ∷ adds allocations 1
    ∷ adds releases 1
    ∷ adds active 1
    ∷ subtracts active 1
    ∷ adds current_bytes 100
    ∷ subtracts current_bytes 60
    ∷ []

turns_order : Interleaves (map thread_steps two_threads) turns
turns_order = moves 0 _ _ refl (
    moves 1 _ _ refl (
      moves 0 _ _ refl (
        moves 1 _ _ refl (
          moves 0 _ _ refl (
            moves 1 _ _ refl
              (moves 0 _ _ refl (moves 1 _ _ refl (finished (refl, (refl, tt))))))))))

run-in_turn_example :
    run turns (λ d. value d zero_stats) current_bytes
    ≡ value current_bytes (in_turn two_threads zero_stats)
run-in_turn_example =
    run-in_turn two_threads turns zero_stats current_bytes turns_order (omega arith)

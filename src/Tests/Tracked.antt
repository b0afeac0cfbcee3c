-- ===== src/Tests/Tracked.antt =====
-- The tracker and the counters.
use mem_sentry.Base.{◌≤◌, ℕ, ◌≡◌, ◌↔◌, refl, List, [], ◌∷◌, true, some, arith, any, ◌==◌, replicate}
use mem_sentry.Types.{AllocationRecord}
use mem_sentry.Tracker.{
  success, double_free_detected, empty_tracker, insert, erase, find, snapshot_all,
}
use mem_sentry.Tracker.Shards.{IsValid, empty_tracker-IsValid, insert-IsValid}
use mem_sentry.Tracker.View.{find-insert, find-erase}
use mem_sentry.Tracker.Quarantine.{Call, inserts, erases, replay}
use mem_sentry.Tracker.Verdicts.{life, live, freed, erase-judges}
use mem_sentry.Tracker.Counting.{any-snapshot_all}
use mem_sentry.Stats.History.{
  Event, allocates, frees, Reports, allocated, allocations, releases, replay-Reports,
}
use mem_sentry.Stats.History
use mem_sentry.Stats.Race.{
  Shared, Phase, outside, added, looping, Steps, here, next, adds, loads, exchanges, retries,
  leaves, move,
}
use mem_sentry.Stats.Race.Invariant.{peak_not_lost}
use mem_sentry.Stats.Race.Progress.{
  IsGenuine, AreGenuine, retries_in, exchanges_in, retries-le-exchanges,
}

abbrev some_record : AllocationRecord
some_record = record {
  allocation_id = 1;
  user_ptr = 4176;
  raw_ptr = 4096;
  requested_size = 100;
  total_size = 200;
  alignment = 16;
  thread_id = 7;
  tag = 16;
  timestamp = 0;
  callstack = replicate 32 0;
  frame_count = 0;
}

erase-judges_example :
    let cs : List Call = erases 4176 ∷ inserts 4176 some_record ∷ [] in
    (((erase 4176 (replay cs empty_tracker)).0 ≡ success) ↔ (life 4176 cs ≡ live))
    × ((erase 4176 (replay cs empty_tracker)).0 ≡ double_free_detected → life 4176 cs ≡ freed)
erase-judges_example =
    erase-judges 4176 (erases 4176 ∷ inserts 4176 some_record ∷ []) (λ e. omega arith)

one-IsValid : IsValid (insert 4176 some_record empty_tracker)
one-IsValid = insert-IsValid 4176 some_record empty_tracker empty_tracker-IsValid

one_found : find 4176 (insert 4176 some_record empty_tracker) ≡ some some_record
one_found = find-insert 4176 4176 some_record empty_tracker empty_tracker-IsValid (λ e. omega arith)

find-erase_example :
    find 64 (erase 4176 (insert 4176 some_record empty_tracker)).2
    ≡ find 64 (insert 4176 some_record empty_tracker)
find-erase_example = find-erase 4176 64 (insert 4176 some_record empty_tracker) one-IsValid

any-snapshot_all_example :
    (any (λ r. r.requested_size == 100) (snapshot_all (insert 4176 some_record empty_tracker))
      ≡ true)
    ↔ ((q : ℕ) × (rec : AllocationRecord) × (find q (insert 4176 some_record empty_tracker)
          ≡ some rec)
        × ((rec.requested_size == 100) ≡ true))
any-snapshot_all_example =
    any-snapshot_all (λ r. r.requested_size == 100) (insert 4176 some_record empty_tracker)
      one-IsValid

abbrev three_events : List Event
three_events = frees 30 ∷ allocates 70 ∷ allocates 30 ∷ []

replay-Reports_example : Reports three_events (History.replay three_events)
unfolding allocated allocations releases History.freed
replay-Reports_example =
    replay-Reports three_events (omega arith, omega arith, tt) (omega arith) (omega arith)

-- Two threads allocate 10 and 5 bytes, and their loops overlap.
abbrev start : Shared
start = record { current = 0; peak = 0; high = 0; phase = λ i. outside }

abbrev at : (current peak : ℕ) → (ℕ → Phase) → Shared
at current peak phase = record { current = current; peak = peak; high = current; phase = phase }

abbrev p₁ : ℕ → Phase
p₁ = move (λ i. outside) 0 (added 10)

abbrev p₂ : ℕ → Phase
p₂ = move p₁ 1 (added 15)

abbrev p₃ : ℕ → Phase
p₃ = move p₂ 1 (looping 15 0)

abbrev p₄ : ℕ → Phase
p₄ = move p₃ 1 outside

abbrev p₅ : ℕ → Phase
p₅ = move p₄ 0 (looping 10 15)

abbrev p₆ : ℕ → Phase
p₆ = move p₅ 0 outside

interleaved : Steps start (at 15 15 p₆)
interleaved =
    next {t = at 15 15 p₅}
      (next {t = at 15 15 p₄}
        (next {t = at 15 0 p₃}
          (next {t = at 15 0 p₂}
            (next {t = at 10 0 p₁} (next {t = start} here (adds 0 10 refl refl))
              (adds 1 5 refl refl))
            (loads 1 15 refl refl))
          (exchanges 1 15 0 refl (omega arith) refl refl))
        (loads 0 10 refl refl))
      (leaves 0 10 15 refl (omega arith) refl)

peak_not_lost_example : (at 15 15 p₆).peak ≡ (at 15 15 p₆).high
peak_not_lost_example = peak_not_lost (λ i. refl) refl interleaved (λ i. ground arith)

-- The same, but thread 0 reads the peak before thread 1 raises it, and tries again.
abbrev q₃ : ℕ → Phase
q₃ = move p₂ 0 (looping 10 0)

abbrev q₄ : ℕ → Phase
q₄ = move q₃ 1 (looping 15 0)

abbrev q₅ : ℕ → Phase
q₅ = move q₄ 1 outside

abbrev q₆ : ℕ → Phase
q₆ = move q₅ 0 (looping 10 15)

abbrev tried_again : Steps start (at 15 15 q₆)
tried_again =
    next {t = at 15 15 q₅}
      (next {t = at 15 0 q₄}
        (next {t = at 15 0 q₃}
          (next {t = at 15 0 p₂}
            (next {t = at 10 0 p₁} (next {t = start} here (adds 0 10 refl refl))
              (adds 1 5 refl refl))
            (loads 0 10 refl refl))
          (loads 1 15 refl refl))
        (exchanges 1 15 0 refl (omega arith) refl refl))
      (retries 0 10 0 refl (omega arith) refl)

retries-le-exchanges_example : retries_in 0 tried_again ≤ exchanges_in tried_again
unfolding IsGenuine AreGenuine
retries-le-exchanges_example =
    retries-le-exchanges 0 tried_again ((λ e. omega arith), (tt, (tt, (tt, (tt, (tt, tt)))))) refl

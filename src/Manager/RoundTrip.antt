-- ===== src/Manager/RoundTrip.antt =====
-- `allocate`, then the client's writes, then `deallocate`.
use mem_sentry.Base.{
  ℕ, ◌+◌, ◌≤◌, ◌<◌, ◌≡◌, ap, ◌∙◌, ◌⊎◌, inl, inr, ◌≢◌, ◌∷◌, Bool, true, false, some, none, arith,
  ◌==◌, ==_refl, if◌then◌else◌, Bool-cases,
}
use mem_sentry.Memory.{Memory, word_mod}
use mem_sentry.Guard.{is_guard_active}
use mem_sentry.Types.{AllocationRecord, intact, footer_corrupted}
use mem_sentry.Block.RedZone.{IsBytes}
use mem_sentry.Block.Live.{IsLive, IsLive-congr, user_of-bounds}
use mem_sentry.Block.Verdict.{verify_canary-IsLive, verify_canary_overrun}
use mem_sentry.Stats.{MemoryStats, update_on_alloc, update_on_free}
use mem_sentry.Tracker
use mem_sentry.Tracker.Shards.{IsValid, insert-IsValid}
use mem_sentry.Tracker.View.{find-insert, find-erase}
use mem_sentry.Manager.State.{Platform, State, mallocs, frees}
use mem_sentry.Manager.Allocate.{footer_size_of, allocate}
use mem_sentry.Manager.Free.{deallocate}
use mem_sentry.Manager.Register.{IsTracked, total_of, allocate-Allocated}
use mem_sentry.Manager.Release.{
  verdict_on, deallocate-Released, deallocate-Returned, deallocate-Withheld,
}

-- The client writes nothing of the block but its payload.
abbrev pub WritesPayload : (raw user size footer : ℕ) (m m' : Memory) → Type 0
WritesPayload raw user size footer m m' =
    (q : ℕ) → raw ≤ q → (q < user) ⊎ (user + size ≤ q) → q < user + size + footer → m' q ≡ m q

-- The block is gone without a trace: nothing but the two system calls, and the counts of what is
-- live, the depth and every other pointer's record are as before.
pub record RoundTrip (os : Platform) (p raw total : ℕ) (s s' : State) : Type 0 where
  pub calls : s'.calls ≡ frees raw ∷ mallocs total raw ∷ s.calls
  pub alerts : s'.alerts ≡ s.alerts
  pub current : s'.stats.current_allocated_bytes ≡ s.stats.current_allocated_bytes
  pub active : s'.stats.active_allocation_count ≡ s.stats.active_allocation_count
  pub depth : s'.depth ≡ s.depth
  pub records :
      (q : ℕ) → Tracker.find q s'.tracker ≡ (if p == q then none else Tracker.find q s.tracker)

alloc-free-stats :
    (n : ℕ) (stats : MemoryStats)
    → n < word_mod
    → stats.current_allocated_bytes < word_mod
    → stats.active_allocation_count < word_mod
    → let after = update_on_free n (update_on_alloc n stats) in
      (after.current_allocated_bytes ≡ stats.current_allocated_bytes)
      × (after.active_allocation_count ≡ stats.active_allocation_count)
unfolding update_on_free update_on_alloc
alloc-free-stats n stats hn hc ha = (omega arith, omega arith)

find-erase-insert :
    (p q : ℕ) (rec : AllocationRecord) (t : Tracker.ShardedTracker)
    → IsValid t
    → p ≢ 0
    → Tracker.find q (Tracker.erase p (Tracker.insert p rec t)).2
      ≡ (if p == q then none else Tracker.find q t)
find-erase-insert p q rec t v nz =
    let erased = find-erase p q (Tracker.insert p rec t) (insert-IsValid p rec t v) in
    let inserted = find-insert p q rec t v nz in
    elim (Bool-cases (p == q)) [
      | inl same ↦ rw same (rw same at erased)
      | inr other ↦ rw other (rw other at erased ∙ rw other at inserted)
    ]

-- A block that is laid out with its canary on.
armed :
    {m : Memory} {h user size footer : ℕ} {canary : Bool}
    → canary ≡ true
    → IsLive m h user size (if canary then footer else 0) canary
    → IsLive m h user size footer true
armed on live = rw on at live

module _ (os : Platform) (size alignment tag raw : ℕ) (s : State) (m : Memory)
    (go : IsTracked os size alignment raw s) (v : IsValid s.tracker) (bytes : IsBytes m) where
  abbrev pub allocated : ℕ × State
  allocated = allocate os size alignment tag s

  -- The state in which the client frees the block.
  abbrev pub written : State
  written = record (allocated.1) { memory = m }

  nonzero : allocated.0 ≢ 0
  nonzero null =
      let a = allocate-Allocated os size alignment tag raw s go in
      let b = user_of-bounds go.fits in omega (arith, b, a.user, null)

  idle_after : is_guard_active written.depth ≡ false
  idle_after =
      ap is_guard_active (allocate-Allocated os size alignment tag raw s go).depth ∙ go.idle

  tracked_after :
      Tracker.find allocated.0 written.tracker
      ≡ some (allocate-Allocated os size alignment tag raw s go).found.0
  tracked_after =
      let a = allocate-Allocated os size alignment tag raw s go in
      rw (a.found.1) (
        find-insert allocated.0 allocated.0 a.found.0 s.tracker v nonzero
        ∙ rw (==_refl allocated.0))

  -- A block that the client has respected is found intact.
  intact_after :
      WritesPayload raw allocated.0 size (footer_size_of s.config) (allocated.1).memory m
      → verdict_on (allocate-Allocated os size alignment tag raw s go).found.0 written ≡ intact
  intact_after payload =
      let a = allocate-Allocated os size alignment tag raw s go in
      rw (a.found.2, a.config)
        (verify_canary-IsLive (IsLive-congr payload a.live) bytes go.fits.mapped)

  -- An allocation that is tracked, whose client then writes bytes of its payload only, and its
  -- free: the raw block goes back to the system once and without an alert, and the live counts, the
  -- recursion depth and every other record are as before (the tracker well formed, the counters
  -- below 2^64).
  pub round_trip :
      WritesPayload raw allocated.0 size (footer_size_of s.config) (allocated.1).memory m
      → s.stats.current_allocated_bytes < word_mod
      → s.stats.active_allocation_count < word_mod
      → RoundTrip os allocated.0 raw
          (total_of s.config alignment size)
          s
          (deallocate os allocated.0 written)
  round_trip payload hc ha =
      let a = allocate-Allocated os size alignment tag raw s go in
      let rec = a.found.0 in
      let r = deallocate-Released os allocated.0 rec written idle_after tracked_after in
      let b =
        deallocate-Returned os allocated.0 rec written idle_after tracked_after
          (intact_after payload) in
      let space = go.fits.space in
      let counts = alloc-free-stats size s.stats (omega arith) hc ha in
      let stats : (deallocate os allocated.0 written).stats
          ≡ update_on_free size (update_on_alloc size s.stats) =
        r.stats ∙ rw (a.found.3, a.stats) in
      record {
        calls = b.calls ∙ rw (a.found.2, a.calls);
        alerts = b.alerts ∙ a.alerts;
        current = ap (λ (x : MemoryStats). x.current_allocated_bytes) stats ∙ counts.0;
        active = ap (λ (x : MemoryStats). x.active_allocation_count) stats ∙ counts.1;
        depth = r.depth ∙ a.depth;
        records = λ q.
            ap (Tracker.find q) (r.tracker ∙ rw a.found.1)
            ∙ find-erase-insert allocated.0 q rec s.tracker v nonzero;
      }

  -- If, with canaries on and a red zone of at least 8 bytes, the client of a tracked allocation
  -- changes a byte of the red zone and not the header, its free is an alert of a corrupted footer,
  -- and the block is kept from the system.
  pub overrun_reported :
      s.config.enable_canary ≡ true
      → 8 ≤ s.config.canary_footer_size
      → ((q : ℕ) → raw ≤ q → q < raw + 64 → m q ≡ (allocated.1).memory q)
      → (j : ℕ) → j < s.config.canary_footer_size
      → m (allocated.0 + size + j) ≢ (allocated.1).memory (allocated.0 + size + j)
      → let after = deallocate os allocated.0 written in
        (after.alerts ≡ (allocated.0, footer_corrupted) ∷ s.alerts)
        × (after.calls ≡ mallocs (total_of s.config alignment size) raw ∷ s.calls)
  overrun_reported on wide header j l differs =
      let a = allocate-Allocated os size alignment tag raw s go in
      let rec = a.found.0 in
      let caught =
        verify_canary_overrun (armed on a.live) bytes go.fits.mapped wide header j l differs in
      let verdict : verdict_on rec written ≡ footer_corrupted =
        rw (a.found.2, a.config, on) caught in
      let kept =
        deallocate-Withheld os allocated.0 rec written idle_after tracked_after
          (λ clean. ground (arith, verdict, clean)) in
      (kept.alerts ∙ rw (verdict, a.alerts), kept.calls ∙ a.calls)

-- ===== src/Manager/Watchdog.antt =====
-- The memory limit: `max_heap_bytes` and `on_limit_exceeded` at the end of `Manager::allocate`.
use mem_sentry.Base.{
  ℕ, ◌+◌, ◌≡◌, ◌≢◌, ◌<◌, inl, inr, none, some, ◌&&◌, ltb, ==_refl, ◌∷◌, if◌then◌else◌,
}
use mem_sentry.Memory.{word_mod}
use mem_sentry.Tracker
use mem_sentry.Tracker.View.{find-insert}
use mem_sentry.Manager.State.{Platform, State}
use mem_sentry.Manager.Allocate.{allocate}
use mem_sentry.Manager.Outcome.{allocate-Outcome}
use mem_sentry.Manager.Accounts.{live_bytes, IsBalanced, allocate-IsBalanced}

-- If the counters are in step with a well formed tracker, an allocation that returns a pointer
-- without a record calls `on_limit_exceeded` exactly if the pointer has a record afterwards, there
-- is a limit and a callback, and the sizes of the tracked blocks add up to more than the limit; the
-- call gets that sum and the limit.
pub allocate-alarms :
    (os : Platform) (size alignment tag : ℕ) (s : State)
    → IsBalanced s
    → (allocate os size alignment tag s).0 ≢ 0
    → Tracker.find (allocate os size alignment tag s).0 s.tracker ≡ none
    → Tracker.size s.tracker + 1 < word_mod
    → live_bytes s.tracker + size < word_mod
    → let r = allocate os size alignment tag s in
      let live = live_bytes r.1.tracker in
      let limit = s.config.max_heap_bytes in
      r.1.alarms ≡ elim (Tracker.find r.0 r.1.tracker) [
        | none ↦ s.alarms
        | some rec ↦
            if ltb 0 limit && s.config.on_limit_exceeded && ltb limit live
            then (live, limit) ∷ s.alarms
            else s.alarms
      ]
allocate-alarms os size alignment tag s b nz new hc hb =
    let r = allocate os size alignment tag s in
    let after = allocate-IsBalanced os size alignment tag s b nz new hc hb in
    elim (allocate-Outcome os size alignment tag s) [
      | inl u ↦ rw (u.tracker, new) u.alarms
      | inr g ↦
          let found : Tracker.find r.0 r.1.tracker ≡ some g.rec =
            rw g.tracker (rw (==_refl r.0) at (find-insert r.0 r.0 g.rec s.tracker b.valid nz)) in
          rw (found, ← after.current) g.alarms
    ]

-- ===== src/Stats/Race/Progress.antt =====
-- That the exchange loop is lock-free: a thread tries again only if another thread got through.
use mem_sentry.Base.{
  ℕ, ◌+◌, ◌≤◌, ◌≡◌, sym, ap, ◌∙◌, ◌≢◌, inl, inr, arith, ==_refl, ==_false, eq_or_ne, ◌==◌,
  if◌then◌else◌,
}
use mem_sentry.Stats.{fetch_add}
use mem_sentry.Stats.Race.{
  Phase, outside, added, looping, Shared, move, Step, adds, loads, leaves, exchanges, retries,
  subtracts, Steps, here, next,
}

-- The times that thread i goes round the loop again, in a step and in a run.
pub retries_of : {s u : Shared} → ℕ → Step s u → ℕ
retries_of i (retries j c seen p lt e) = if j == i then 1 else 0
retries_of i _ = 0

pub retries_in : {s u : Shared} → ℕ → Steps s u → ℕ
retries_in i here = 0
retries_in i (next r st) = retries_of i st + retries_in i r

-- The exchanges that succeed, of any thread.
pub exchanges_of : {s u : Shared} → Step s u → ℕ
exchanges_of (exchanges j c seen p lt same e) = 1
exchanges_of _ = 0

pub exchanges_in : {s u : Shared} → Steps s u → ℕ
exchanges_in here = 0
exchanges_in (next r st) = exchanges_of st + exchanges_in r

-- No exchange fails while the peak is the one that was seen.
unfoldable pub IsGenuine : {s u : Shared} → Step s u → Type 0
IsGenuine {s} (retries j c seen p lt e) = s.peak ≢ seen
IsGenuine _ = Unit

unfoldable pub AreGenuine : {s u : Shared} → Steps s u → Type 0
AreGenuine here = Unit
AreGenuine (next r st) = IsGenuine st × AreGenuine r

-- 1 for a thread that saw a peak that is another now.
abbrev stale : Phase → ℕ → ℕ
stale outside peak = 0
stale (added c) peak = 0
stale (looping c seen) peak = if seen == peak then 0 else 1

stale-le : (p : Phase) (peak : ℕ) → stale p peak ≤ 1
stale-le outside peak = omega arith
stale-le (added c) peak = omega arith
stale-le (looping c seen) peak = ground arith

-- A step of thread j that leaves the peak alone.
moved_stale :
    (f : ℕ → Phase) (i j peak : ℕ) (p : Phase)
    → stale (move f j p i) peak ≤ (if j == i then stale p peak else stale (f i) peak)
moved_stale f i j peak p = elim (eq_or_ne j i) [
  | inl same ↦ rw (same, ==_refl i) (omega arith)
  | inr other ↦ rw (==_false j i other) (omega arith)
]

was_stale : (c seen peak : ℕ) → peak ≢ seen → stale (looping c seen) peak ≡ 1
was_stale c seen peak ne = rw (==_false seen peak (λ e. ne (sym e)))

-- A retry uses up an exchange that another thread made.
Step-pays :
    {s u : Shared} (i : ℕ) (st : Step s u)
    → IsGenuine st
    → retries_of i st + stale (u.phase i) u.peak ≤ exchanges_of st + stale (s.phase i) s.peak
unfolding retries_of exchanges_of IsGenuine
Step-pays {s} i (adds j bytes p e) g =
    let bound = moved_stale s.phase i j s.peak (added (fetch_add s.current bytes)) in
    rw e (ground (arith, bound, ==_refl s.peak))
Step-pays {s} i (loads j c p e) g =
    let bound = moved_stale s.phase i j s.peak (looping c s.peak) in
    rw e (ground (arith, bound, ==_refl s.peak))
Step-pays {s} i (leaves j c seen p le e) g =
    let bound = moved_stale s.phase i j s.peak outside in
    rw e (ground (arith, bound, ==_refl s.peak))
Step-pays {s} i (exchanges j c seen p lt same e) g =
    let bound = stale-le (move s.phase j outside i) c in rw e (omega (arith, bound))
Step-pays {s} i (retries j c seen p lt e) g =
    let bound = moved_stale s.phase i j s.peak (looping c s.peak) in
    elim (eq_or_ne j i) [
      | inl mine ↦
          let paid : stale (s.phase i) s.peak ≡ 1 =
            ap (λ k. stale (s.phase k) s.peak) (sym mine)
            ∙ ap (λ (q : Phase). stale q s.peak) p
            ∙ was_stale c seen s.peak g in
          rw e (ground (arith, bound, paid, mine))
      | inr other ↦ rw e (ground (arith, bound, other))
    ]
Step-pays {s} i (subtracts bytes e) g = rw e (omega arith)

Steps-pay :
    {s u : Shared} (i : ℕ) (r : Steps s u)
    → AreGenuine r
    → s.phase i ≡ outside
    → retries_in i r + stale (u.phase i) u.peak ≤ exchanges_in r
unfolding retries_in exchanges_in AreGenuine
Steps-pay i here g out = rw out (omega arith)
Steps-pay i (next r st) g out =
    let before = Steps-pay i r g.1 out in let now = Step-pays i st g.0 in omega (arith, before, now)

-- In any interleaving of the steps of `update_on_alloc` and of frees in which no exchange fails
-- while the peak is the one that was seen, a thread that starts outside goes round the loop again
-- at most as often as exchanges succeed.
pub retries-le-exchanges :
    {s u : Shared} (i : ℕ) (r : Steps s u)
    → AreGenuine r
    → s.phase i ≡ outside
    → retries_in i r ≤ exchanges_in r
retries-le-exchanges i r g out = omega (arith, Steps-pay i r g out)

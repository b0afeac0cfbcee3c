-- ===== src/Stats/Race/Invariant.antt =====
-- The invariant of the interleaved loop, and that no update of the peak is lost.
use mem_sentry.Base.{
  ℕ, ◌≤◌, ◌<◌, max, ◌≡◌, refl, ap, ◌≢◌, ◌⊎◌, inl, inr, arith, ==_refl, ==_false, eq_or_ne,
}
use mem_sentry.Stats.{fetch_add}
use mem_sentry.Stats.Race.{
  Phase, outside, added, looping, Shared, move, Step, adds, loads, leaves, exchanges, retries,
  subtracts, Steps, here, next,
}

-- The value that a thread still carries to the peak.
abbrev pub carried : Phase → ℕ
carried outside = 0
carried (added c) = c
carried (looping c seen) = c

abbrev pub seen_of : Phase → ℕ
seen_of outside = 0
seen_of (added c) = 0
seen_of (looping c seen) = seen

-- The peak is never above the highest value; the highest value is in the peak or on its way.
pub record Inv (s : Shared) : Type 0 where
  pub below : s.peak ≤ s.high
  pub carrying : (i : ℕ) → carried (s.phase i) ≤ s.high
  pub behind : (i : ℕ) → seen_of (s.phase i) ≤ s.peak
  pub on_its_way :
      (s.high ≤ s.peak) ⊎ ((i : ℕ) × (carried (s.phase i) ≡ s.high) × (s.peak < s.high))

move_self : (f : ℕ → Phase) (i : ℕ) (p : Phase) → move f i p i ≡ p
move_self f i p = rw (==_refl i)

-- A thread that moves leaves the others where they are.
moved :
    (f : ℕ → Phase) (i j : ℕ) (p : Phase)
    → ((i ≡ j) × (move f i p j ≡ p)) ⊎ ((i ≢ j) × (move f i p j ≡ f j))
moved f i j p = elim (eq_or_ne i j) [
  | inl e ↦ inl (e, rw e (move_self f j p))
  | inr d ↦ inr (d, rw (==_false i j d))
]

-- Where the highest value is after thread i has moved to phase p.
abbrev Way : Shared → ℕ → Phase → ℕ → ℕ → Type 0
Way s i p peak high =
    (high ≤ peak)
    ⊎ ((carried p ≡ high) × (peak < high))
    ⊎ ((j : ℕ) × (i ≢ j) × (carried (s.phase j) ≡ high) × (peak < high))

moved-Inv :
    (s : Shared) (i current peak high : ℕ) (p : Phase)
    → Inv s
    → s.peak ≤ peak
    → s.high ≤ high
    → peak ≤ high
    → carried p ≤ high
    → seen_of p ≤ peak
    → Way s i p peak high
    → Inv (record { current = current; peak = peak; high = high; phase = move s.phase i p })
moved-Inv s i current peak high p v up higher below carry seen way = record {
  below = below;
  carrying = λ j. elim (moved s.phase i j p) [
    | inl (_, e) ↦ rw e carry
    | inr (_, e) ↦ rw e (omega (arith, v.carrying j))
  ];
  behind = λ j. elim (moved s.phase i j p) [
    | inl (_, e) ↦ rw e seen
    | inr (_, e) ↦ rw e (omega (arith, v.behind j))
  ];
  on_its_way = elim way [
    | inl done ↦ inl done
    | inr (inl (c, lt)) ↦ inr (i, rw (move_self s.phase i p) c, lt)
    | inr (inr (j, d, c, lt)) ↦ inr (j, rw (==_false i j d) c, lt)
  ];
}

le_or_lt : (a b : ℕ) → (a ≤ b) ⊎ (b < a)
le_or_lt a b = grind arith

adds-Way :
    (s : Shared) (i c : ℕ) → Inv s → s.phase i ≡ outside → Way s i (added c) s.peak (max s.high c)
adds-Way s i c v out = elim (le_or_lt s.high c) [
  | inl up ↦ elim (le_or_lt c s.peak) [
    | inl done ↦ inl (omega arith)
    | inr more ↦ inr (inl (omega arith, omega arith))
  ]
  | inr under ↦ elim v.on_its_way [
    | inl done ↦ inl (omega arith)
    | inr (j, e, lt) ↦ elim (eq_or_ne i j) [
      | inl same ↦ absurd (omega (arith, ap carried out, ap (λ k. carried (s.phase k)) same))
      | inr other ↦ inr (inr (j, other, omega arith, omega arith))
    ]
  ]
]

stays-Way :
    (s : Shared) (i c : ℕ) (p : Phase)
    → Inv s
    → carried (s.phase i) ≡ c
    → carried p ≡ c
    → Way s i p s.peak s.high
stays-Way s i c p v old new = elim v.on_its_way [
  | inl done ↦ inl done
  | inr (j, e, lt) ↦ elim (eq_or_ne i j) [
    | inl same ↦ inr (inl (omega (arith, ap (λ k. carried (s.phase k)) same), lt))
    | inr other ↦ inr (inr (j, other, e, lt))
  ]
]

-- A thread leaves with the peak at its own value or above.
drops-Way :
    (s : Shared) (i c peak : ℕ)
    → Inv s
    → carried (s.phase i) ≡ c
    → c ≤ peak
    → s.peak ≤ peak
    → Way s i outside peak s.high
drops-Way s i c peak v old le up = elim (le_or_lt s.high peak) [
  | inl done ↦ inl done
  | inr lt ↦ elim v.on_its_way [
    | inl done ↦ absurd (omega arith)
    | inr (j, e, _) ↦ elim (eq_or_ne i j) [
      | inl same ↦ absurd (omega (arith, ap (λ k. carried (s.phase k)) same))
      | inr other ↦ inr (inr (j, other, e, lt))
    ]
  ]
]

-- Every step of every thread keeps the invariant.
pub Step-Inv : {s u : Shared} → Step s u → Inv s → Inv u
Step-Inv {s} {u} (adds i bytes out e) v =
    let c = fetch_add s.current bytes in
    let b = v.below in
    rw e (
      moved-Inv s i c s.peak (max s.high c) (added c) v (omega arith) (omega arith) (omega arith)
        (omega arith) (omega arith) (adds-Way s i c v out))
Step-Inv {s} {u} (loads i c at_added e) v =
    let b = v.below in
    let old : carried (s.phase i) ≡ c = ap carried at_added in
    rw e (
      moved-Inv s i s.current s.peak s.high (looping c s.peak) v (omega arith) (omega arith) b
        (omega (arith, v.carrying i)) (omega arith) (stays-Way s i c (looping c s.peak) v old refl))
Step-Inv {s} {u} (leaves i c seen at_loop le e) v =
    let b = v.below in
    let old : carried (s.phase i) ≡ c = ap carried at_loop in
    let low : seen ≤ s.peak = omega (arith, ap seen_of at_loop, v.behind i) in
    rw e (
      moved-Inv s i s.current s.peak s.high outside v (omega arith) (omega arith) b (omega arith)
        (omega arith) (drops-Way s i c s.peak v old (omega arith) (omega arith)))
Step-Inv {s} {u} (exchanges i c seen at_loop lt same e) v =
    let old : carried (s.phase i) ≡ c = ap carried at_loop in
    rw e (
      moved-Inv s i s.current c s.high outside v (omega arith) (omega arith)
        (omega (arith, v.carrying i)) (omega arith) (omega arith)
        (drops-Way s i c c v old (omega arith) (omega arith)))
Step-Inv {s} {u} (retries i c seen at_loop lt e) v =
    let b = v.below in
    let old : carried (s.phase i) ≡ c = ap carried at_loop in
    rw e (
      moved-Inv s i s.current s.peak s.high (looping c s.peak) v (omega arith) (omega arith) b
        (omega (arith, v.carrying i)) (omega arith) (stays-Way s i c (looping c s.peak) v old refl))
Step-Inv {s} {u} (subtracts bytes e) v = rw e (record {
  below = v.below;
  carrying = v.carrying;
  behind = v.behind;
  on_its_way = v.on_its_way;
})

pub Steps-Inv : {s u : Shared} → Steps s u → Inv s → Inv u
Steps-Inv here v = v
Steps-Inv (next r st) v = Step-Inv st (Steps-Inv r v)

-- No thread is inside `update_on_alloc`.
abbrev pub IsQuiet : Shared → Type 0
IsQuiet s = (i : ℕ) → s.phase i ≡ outside

-- For any number of threads and any interleaving of the single atomic steps of `update_on_alloc`
-- (with spurious failures of the exchange) and of frees, once all threads are out again the peak is
-- the highest value that the current counter was raised to.
pub peak_not_lost :
    {s u : Shared} → IsQuiet s → s.peak ≡ s.high → Steps s u → IsQuiet u → u.peak ≡ u.high
peak_not_lost {s} {u} quiet start r rest =
    let first : Inv s = record {
      below = omega arith;
      carrying = λ i. rw (quiet i) (omega arith);
      behind = λ i. rw (quiet i) (omega arith);
      on_its_way = inl (omega arith);
    } in
    let v = Steps-Inv r first in
    let b = v.below in
    elim v.on_its_way [
      | inl done ↦ omega arith
      | inr (j, e, lt) ↦ absurd (omega (arith, ap carried (rest j)))
    ]

-- The peak never falls while threads step.
pub Step-peak_mono : {s u : Shared} → Step s u → s.peak ≤ u.peak
Step-peak_mono (adds i bytes out e) = omega (arith, ap (λ r. r.peak) e)
Step-peak_mono (loads i c p e) = omega (arith, ap (λ r. r.peak) e)
Step-peak_mono (leaves i c seen p le e) = omega (arith, ap (λ r. r.peak) e)
Step-peak_mono (exchanges i c seen p lt same e) = omega (arith, ap (λ r. r.peak) e)
Step-peak_mono (retries i c seen p lt e) = omega (arith, ap (λ r. r.peak) e)
Step-peak_mono (subtracts bytes e) = omega (arith, ap (λ r. r.peak) e)

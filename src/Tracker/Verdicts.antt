-- ===== src/Tracker/Verdicts.antt =====
-- The verdicts of `erase` against the life of each pointer, as the history of calls tells it.
use mem_sentry.Base.{
  eq_or_ne, ℕ, zero, suc, ◌≡◌, refl, sym, ap, ◌∙◌, ◌≢◌, ◌↔◌, inl, inr, true, false, List, [], ◌∷◌,
  none, some, arith, Bool-cases, Option-cases, ==_false, ==_refl, if◌then◌else◌, ◌==◌, any,
  replicate, get_or-replicate,
}
use mem_sentry.Base.Dict
use mem_sentry.Base.Dict.{lookup-insert, lookup-erase}
use mem_sentry.Types.{AllocationRecord}
use mem_sentry.Tracker.{
  ShardedTracker, Erased, success, double_free_detected, empty_shard, empty_tracker,
  get_shard_index, shard_of, insert, erase, find,
}
use mem_sentry.Tracker.Shards.{IsValid, empty_tracker-IsValid}
use mem_sentry.Tracker.View.{
  find_of, find-insert, find-erase, erase_found, erase_missing, erase-success,
}
use mem_sentry.Tracker.Quarantine.{
  Call, inserts, erases, apply, replay, replay-IsValid, quarantined, erase_verdict,
  quarantined-insert, quarantined-evict,
}

-- The life of a pointer, as the history of calls tells it.
pub data Life : Type 0 where
  unknown live freed : Life

abbrev pub release : Life → Life
release live = freed
release freed = freed
release unknown = unknown

unfoldable pub life : ℕ → List Call → Life
life p [] = unknown
life p (inserts q rec ∷ cs) = if q == p then live else life p cs
life p (erases q ∷ cs) = if q == p then release (life p cs) else life p cs

-- The tracker agrees with the history on a pointer.
pub record Agrees (p : ℕ) (l : Life) (t : ShardedTracker) : Type 0 where
  pub tracked : (find p t ≢ none) ↔ (l ≡ live)
  pub ring : quarantined p t ≡ true → l ≡ freed

Agrees-insert :
    (p u : ℕ) (rec : AllocationRecord) (l : Life) (t : ShardedTracker)
    → IsValid t
    → p ≢ 0
    → Agrees p l t
    → Agrees p (if u == p then live else l) (insert u rec t)
Agrees-insert p u rec l t v nz a = elim (eq_or_ne u 0) [
  | inl z ↦ rw z (rw (==_false 0 p (λ e. nz (sym e))) (unfold insert in a))
  | inr nu ↦
      let found = find-insert u p rec t v nu in
      let ring = quarantined-insert p u rec t v nz nu in
      elim (eq_or_ne u p) [
        | inl same ↦
            let hit : (u == p) ≡ true = rw same (==_refl p) in
            let shown : find p (insert u rec t) ≡ some rec = rw (found, hit) in
            rw hit (record {
              tracked = (λ _. refl, λ _ n. cc (shown, n));
              ring = λ q. absurd (ground (arith, sym q ∙ ring, hit));
            })
        | inr other ↦
            let miss = ==_false u p other in
            rw miss (record {
              tracked = rw (found, miss) a.tracked;
              ring = λ q. a.ring (rw (ring, miss) at q);
            })
      ]
]

release-ne-live : (l : Life) → release l ≢ live
release-ne-live unknown e = cc
release-ne-live live e = cc
release-ne-live freed e = cc

Agrees-erase :
    (p u : ℕ) (l : Life) (t : ShardedTracker)
    → IsValid t
    → p ≢ 0
    → Agrees p l t
    → Agrees p (if u == p then release l else l) (erase u t).2
Agrees-erase p u l t v nz a = elim (eq_or_ne u p) [
  | inl same ↦
      let hit : (u == p) ≡ true = rw same (==_refl p) in
      let gone : find p (erase u t).2 ≡ none = rw (find-erase u p t v, hit) in
      rw hit (record {
        tracked = (λ n. absurd (n gone), λ e. absurd (release-ne-live l e));
        ring = λ q. elim (Option-cases (find u t)) [
          | inl e ↦ ap release (a.ring (rw (erase_missing u t e).1 at q))
          | inr (rec, e) ↦ ap release (a.tracked.0 (λ n. cc (n, e, same)))
        ];
      })
  | inr other ↦
      let miss = ==_false u p other in
      rw miss (record {
        tracked = rw (find-erase u p t v, miss) a.tracked;
        ring = λ q. elim (Option-cases (find u t)) [
          | inl e ↦ a.ring (rw (erase_missing u t e).1 at q)
          | inr (rec, e) ↦ elim (quarantined-evict p u t v (rw (erase_found u rec t e).1 at q)) [
            | inl s ↦ absurd (other s)
            | inr old ↦ a.ring old
          ]
        ];
      })
]

any-zero : (p : ℕ) (n : ℕ) → p ≢ 0 → any (λ q. q == p) (replicate n 0) ≡ false
unfolding any
any-zero p zero nz = refl
any-zero p (suc n) nz = ground (arith, any-zero p n nz)

-- After any history the tracker agrees with it on every pointer.
pub replay-Agrees :
    (p : ℕ) (cs : List Call) → p ≢ 0 → Agrees p (life p cs) (replay cs empty_tracker)
unfolding replay apply life
replay-Agrees p [] nz =
    let blank : shard_of p empty_tracker ≡ empty_shard =
      get_or-replicate 64 (get_shard_index p) empty_shard in
    record {
      tracked = (
        λ n. absurd (n (find_of p empty_tracker nz ∙ rw blank (unfold Dict.lookup in refl))),
        λ e. cc,
      );
      ring = λ q. absurd (ground (arith, rw blank at q, any-zero p 256 nz));
    }
replay-Agrees p (inserts u rec ∷ cs) nz =
    Agrees-insert p u rec (life p cs) _ (replay-IsValid cs _ empty_tracker-IsValid) nz
      (replay-Agrees p cs nz)
replay-Agrees p (erases u ∷ cs) nz =
    Agrees-erase p u (life p cs) _ (replay-IsValid cs _ empty_tracker-IsValid) nz
      (replay-Agrees p cs nz)

-- After any history of inserts and erases from the empty tracker, the erase of a pointer that is
-- not null succeeds exactly if the history says that it is live, and reports a double free only if
-- the history says that it was freed and not inserted since.
pub erase-judges :
    (p : ℕ) (cs : List Call)
    → p ≢ 0
    → (((erase p (replay cs empty_tracker)).0 ≡ success) ↔ (life p cs ≡ live))
      × ((erase p (replay cs empty_tracker)).0 ≡ double_free_detected → life p cs ≡ freed)
erase-judges p cs nz =
    let t = replay cs empty_tracker in
    let a = replay-Agrees p cs nz in
    let s = erase-success p t in
    (
      (λ e. a.tracked.0 (s.0 e), λ e. s.1 (a.tracked.1 e)),
      λ e. elim (Option-cases (find p t)) [
        | inr (rec, f) ↦ absurd (cc (e, ap (λ (r : Erased). r.0) (erase_found p rec t f).1))
        | inl f ↦ elim (Bool-cases (quarantined p t)) [
          | inl q ↦ a.ring q
          | inr q ↦ absurd (cc (e, rw q at (erase_verdict p t nz f)))
        ]
      ],
    )

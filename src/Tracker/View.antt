-- ===== src/Tracker/View.antt =====
-- The sharded tracker refines one map from pointers to records: shards, hashing and the order of
-- entries do not show.
use mem_sentry.Base.{
  eq_or_ne, ℕ, ◌≡◌, refl, sym, ap, ◌∙◌, ◌≢◌, inl, inr, Option, none, some, arith, ◌==◌, ==_false,
  ==_refl, if◌then◌else◌, Option-cases, ◌↔◌, length, get_or, get_or-replicate, set,
}
use mem_sentry.Base.Dict
use mem_sentry.Base.Dict.{lookup-insert, lookup-erase}
use mem_sentry.Types.{AllocationRecord}
use mem_sentry.Tracker.{
  Shard, ShardedTracker, empty_tracker, empty_shard, success, get_shard_index, shard_of, insert_in,
  insert, evict, erase, find,
}
use mem_sentry.Tracker.Shards.{IsValid, shard_of-set}

-- A pointer that is not null is read from its shard.
pub find_of : (q : ℕ) (t : ShardedTracker) → q ≢ 0 → find q t ≡ Dict.lookup q (shard_of q t).records
unfolding find
find_of q t nz = rw (==_false q 0 nz)

pub find_nonzero :
    (q : ℕ) (rec : AllocationRecord) (t : ShardedTracker) → find q t ≡ some rec → q ≢ 0
unfolding find
find_nonzero q rec t h z = ground (arith, h, z)

-- Writing one shard back so that only p's entry changes changes what is found at p only.
find-write :
    (p q : ℕ) (value : Option AllocationRecord) (s : Shard) (t : ShardedTracker)
    → length t ≡ 64
    → p ≢ 0
    → ((k : ℕ)
        → Dict.lookup k s.records
          ≡ (if p == k then value else Dict.lookup k (shard_of p t).records))
    → find q (set t (get_shard_index p) s) ≡ (if p == q then value else find q t)
unfolding find
find-write p q value s t len nz law = elim (eq_or_ne q 0) [
  | inl z ↦ rw z (rw (==_false p 0 nz) refl)
  | inr nq ↦
      rw (==_false q 0 nq, shard_of-set t p q s len)
        (elim (eq_or_ne (get_shard_index p) (get_shard_index q)) [
          | inl same ↦
              let here : shard_of p t ≡ shard_of q t = ap (λ i. get_or t i empty_shard) same in
              rw (same, ==_refl (get_shard_index q)) (rw here at (law q))
          | inr other ↦
              let apart : p ≢ q = λ e. other (ap get_shard_index e) in
              rw (==_false _ _ other, ==_false p q apart) refl
        ])
]

-- What is found after an insertion: the new record under its pointer, all else as before.
pub find-insert :
    (p q : ℕ) (rec : AllocationRecord) (t : ShardedTracker)
    → IsValid t
    → p ≢ 0
    → find q (insert p rec t) ≡ (if p == q then some rec else find q t)
unfolding insert insert_in
find-insert p q rec t v nz = rw (==_false p 0 nz) (
    find-write p q (some rec) (insert_in p rec (shard_of p t)) t v.shards nz
      (λ k. lookup-insert p k rec (shard_of p t).records))

-- An erase of a pointer that has a record.
pub erase_found :
    (p : ℕ) (rec : AllocationRecord) (t : ShardedTracker)
    → find p t ≡ some rec
    → (p ≢ 0)
      × (erase p t ≡ (success, some rec, set t (get_shard_index p) (evict p (shard_of p t))))
unfolding find erase
erase_found p rec t h = (λ z. ground (arith, h, z), ground (arith, h))

-- An erase of a pointer that has none: the tracker stays as it is.
pub erase_missing :
    (p : ℕ) (t : ShardedTracker)
    → find p t ≡ none
    → ((erase p t).1 ≡ none) × ((erase p t).2 ≡ t) × ((erase p t).0 ≢ success)
unfolding find erase
erase_missing p t h = (ground (arith, h), ground (arith, h), λ e. ground (arith, h, e))

-- `erase` moves out the record that `find` would show.
pub erase-find : (p : ℕ) (t : ShardedTracker) → (erase p t).1 ≡ find p t
erase-find p t = elim (Option-cases (find p t)) [
  | inl e ↦ (erase_missing p t e).0 ∙ sym e
  | inr (rec, e) ↦ rw (e, (erase_found p rec t e).1)
]

-- It reports success exactly when there is one.
pub erase-success : (p : ℕ) (t : ShardedTracker) → ((erase p t).0 ≡ success) ↔ (find p t ≢ none)
erase-success p t = elim (Option-cases (find p t)) [
  | inl e ↦ (λ h. absurd ((erase_missing p t e).2 h), λ h. absurd (h e))
  | inr (rec, e) ↦ (λ _ n. cc (e, n), λ _. rw (erase_found p rec t e).1)
]

-- In a well formed tracker, after an erase nothing is found under its pointer and every other
-- pointer is found as before.
pub find-erase :
    (p q : ℕ) (t : ShardedTracker)
    → IsValid t
    → find q (erase p t).2 ≡ (if p == q then none else find q t)
find-erase p q t v = elim (Option-cases (find p t)) [
  | inl e ↦ rw (erase_missing p t e).1 (missing e)
  | inr (rec, e) ↦
      let (nz, run) = erase_found p rec t e in
      rw run (
        find-write p q none (evict p (shard_of p t)) t v.shards nz
          (λ k. unfold evict in lookup-erase p k (shard_of p t).records))
]
  where
    missing : find p t ≡ none → find q t ≡ (if p == q then none else find q t)
    missing e = elim (eq_or_ne p q) [
      | inl same ↦ rw (← same, ==_refl p, e)
      | inr other ↦ rw (==_false p q other)
    ]

pub find-empty_tracker : (q : ℕ) → find q empty_tracker ≡ none
find-empty_tracker q = elim (eq_or_ne q 0) [
  | inl z ↦ unfold find in rw z
  | inr nz ↦
      let blank : shard_of q empty_tracker ≡ empty_shard =
        get_or-replicate 64 (get_shard_index q) empty_shard in
      find_of q empty_tracker nz ∙ rw blank (unfold Dict.lookup in refl)
]

-- ===== src/Tracker/Counting.antt =====
-- Sums over the tracker: what one operation adds to them or takes away, and which records
-- `snapshot_all` returns.
use mem_sentry.Base.{
  ℕ, zero, suc, ◌+◌, ◌<◌, ◌≡◌, refl, sym, ◌∙◌, ◌≢◌, ◌↔◌, Bool, true, List, [], ◌∷◌, map, none, some,
  arith, Bool-cases, inl, inr, ==_false, length, get_or, set, total, any, length-append, length-map,
  total-append, total-map, total-set, any-append, any-map,
}
use mem_sentry.Base.Dict
use mem_sentry.Base.Dict.{total-insert_new, total-erase, any-lookup, lookup-any}
use mem_sentry.Types.{AllocationRecord}
use mem_sentry.Tracker.{
  Shard, ShardedTracker, empty_shard, get_shard_index, shard_of, insert_in, insert, evict, erase,
  find, snapshot_all, size,
}
use mem_sentry.Tracker.Shards.{IsValid, get_shard_index-lt}
use mem_sentry.Tracker.View.{find_of, find_nonzero, erase_found}

module _ (f : AllocationRecord → ℕ) where
  -- A measure of the records of one shard.
  abbrev shard_total : Shard → ℕ
  shard_total s = total (λ e. f e.1) s.records

  total-snapshot_all : (t : ShardedTracker) → total f (snapshot_all t) ≡ total shard_total t
  unfolding snapshot_all total
  total-snapshot_all [] = refl
  total-snapshot_all (s ∷ t) =
      total-append f (map (λ e. e.1) s.records) (snapshot_all t)
      ∙ omega (arith, total-map f (λ e. e.1) s.records, total-snapshot_all t)

  -- A new record adds its share to every sum over the snapshot.
  pub total-insert :
      (p : ℕ) (rec : AllocationRecord) (t : ShardedTracker)
      → IsValid t
      → p ≢ 0
      → find p t ≡ none
      → total f (snapshot_all (insert p rec t)) ≡ total f (snapshot_all t) + f rec
  unfolding insert insert_in
  total-insert p rec t v nz h =
      let s = shard_of p t in
      let absent : Dict.lookup p s.records ≡ none = sym (find_of p t nz) ∙ h in
      rw (==_false p 0 nz) (
        omega (
          arith,
          total-snapshot_all (set t (get_shard_index p) (insert_in p rec s)),
          total-snapshot_all t,
          total-set shard_total t (get_shard_index p) (insert_in p rec s) empty_shard
              (omega (arith, get_shard_index-lt p, v.shards)),
          total-insert_new (λ e. f e.1) p rec s.records absent,
        ))

  -- An erased record takes its share with it.
  pub total-erase_found :
      (p : ℕ) (rec : AllocationRecord) (t : ShardedTracker)
      → IsValid t
      → find p t ≡ some rec
      → total f (snapshot_all (erase p t).2) + f rec ≡ total f (snapshot_all t)
  unfolding evict
  total-erase_found p rec t v h =
      let s = shard_of p t in
      let (nz, run) = erase_found p rec t h in
      let here : Dict.lookup p s.records ≡ some rec = sym (find_of p t nz) ∙ h in
      rw run (
        omega (
          arith,
          total-snapshot_all (set t (get_shard_index p) (evict p s)),
          total-snapshot_all t,
          total-set shard_total t (get_shard_index p) (evict p s) empty_shard
              (omega (arith, get_shard_index-lt p, v.shards)),
          total-erase (λ e. f e.1) p rec s.records
              (v.each (get_shard_index p) (get_shard_index-lt p)).unique here,
        ))

length-total {ℓ} : {A : Type ℓ} (xs : List A) → length xs ≡ total (λ x. 1) xs
unfolding total
length-total [] = refl
length-total (x ∷ xs) = omega (arith, length-total xs)

-- `size` is the number of records that `snapshot_all` returns.
pub size-eq-length : (t : ShardedTracker) → size t ≡ length (snapshot_all t)
unfolding size snapshot_all
size-eq-length [] = refl
size-eq-length (s ∷ t) = omega (
  arith,
  length-append (map (λ e. e.1) s.records) (snapshot_all t),
  length-map (λ (e : ℕ × AllocationRecord). e.1) s.records,
  size-eq-length t,
)

pub size-total : (t : ShardedTracker) → size t ≡ total (λ r. 1) (snapshot_all t)
size-total t = size-eq-length t ∙ length-total (snapshot_all t)

module _ (p : AllocationRecord → Bool) where
  any-shard :
      (t : ShardedTracker)
      → any p (snapshot_all t) ≡ true
      → (i : ℕ) × (i < length t) × (any (λ e. p e.1) (get_or t i empty_shard).records ≡ true)
  unfolding snapshot_all any
  any-shard [] h = absurd (ground (arith, h))
  any-shard (s ∷ t) h = elim (Bool-cases (any (λ e. p e.1) s.records)) [
    | inl here ↦ (0, omega arith, here)
    | inr absent ↦
        let split = any-append p (map (λ e. e.1) s.records) (snapshot_all t) in
        let left = any-map p (λ e. e.1) s.records ∙ absent in
        let (i, l, found) = any-shard t (ground (arith, split, left, h)) in
        (suc i, omega arith, found)
  ]

  shard-any :
      (t : ShardedTracker) (i : ℕ)
      → i < length t
      → any (λ e. p e.1) (get_or t i empty_shard).records ≡ true
      → any p (snapshot_all t) ≡ true
  unfolding snapshot_all any
  shard-any [] i l h = absurd (omega arith)
  shard-any (s ∷ t) zero l h =
      any-append p (map (λ e. e.1) s.records) (snapshot_all t)
      ∙ rw (any-map p (λ e. e.1) s.records, h)
  shard-any (s ∷ t) (suc i) l h =
      any-append p (map (λ e. e.1) s.records) (snapshot_all t)
      ∙ rw (shard-any t i (omega arith) h) (ground arith)

  -- A record of the snapshot of a well formed tracker passes a test if and only if the record that
  -- is found under some pointer does.
  pub any-snapshot_all :
      (t : ShardedTracker)
      → IsValid t
      → (any p (snapshot_all t) ≡ true)
        ↔ ((q : ℕ) × (rec : AllocationRecord) × (find q t ≡ some rec) × (p rec ≡ true))
  any-snapshot_all t v = (
    λ h.
        let (i, l, here) = any-shard t h in
        let shard = v.each i (omega (arith, v.shards)) in
        let (k, rec, found, pass) = any-lookup p _ shard.unique here in
        let (nz, home) = shard.homed k (λ n. ground (arith, n, found)) in
        (k, rec, find_of k t nz ∙ rw home found, pass),
    λ (q, rec, found, pass).
        let nz : q ≢ 0 = find_nonzero q rec t found in
        shard-any t (get_shard_index q) (omega (arith, get_shard_index-lt q, v.shards))
          (lookup-any p q rec _ (sym (find_of q t nz) ∙ found) pass),
  )

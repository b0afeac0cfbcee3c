-- ===== src/Tracker/Quarantine.antt =====
-- Double frees. The verdicts of `erase` are held against the life of each pointer as the history of
-- calls tells it, and the ring remembers a pointer for 255 further erasures.
use mem_sentry.Base.{
  eq_or_ne, ℕ, zero, suc, ◌≡◌, refl, sym, ap, ◌∙◌, ◌≢◌, ◌⊎◌, inl, inr, Bool, true, false, List, [],
  ◌∷◌, map, none, arith, Bool-cases, ==_false, ==_refl, ==_sound, if◌then◌else◌, ◌==◌, set, any,
}
use mem_sentry.Base.Dict
use mem_sentry.Base.Dict.{lookup-insert, lookup-erase}
use mem_sentry.Types.{AllocationRecord}
use mem_sentry.Tracker.{
  Shard, ShardedTracker, not_found, double_free_detected, get_shard_index, shard_of, insert_in,
  insert, evict, erase, find,
}
use mem_sentry.Tracker.Shards.{IsValid, insert-IsValid, erase-IsValid, shard_of-set}
use mem_sentry.Tracker.View.{find_of}

-- The calls that change the tracker while the program runs.
pub data Call : Type 0 where
  inserts : ℕ → AllocationRecord → Call
  erases : ℕ → Call

unfoldable pub apply : Call → ShardedTracker → ShardedTracker
apply (inserts p rec) t = insert p rec t
apply (erases p) t = (erase p t).2

-- The tracker after a history of calls, newest first.
unfoldable pub replay : List Call → ShardedTracker → ShardedTracker
unfolding apply
replay [] t = t
replay (c ∷ cs) t = apply c (replay cs t)

pub apply-IsValid : (c : Call) (t : ShardedTracker) → IsValid t → IsValid (apply c t)
unfolding apply
apply-IsValid (inserts p rec) t v = insert-IsValid p rec t v
apply-IsValid (erases p) t v = erase-IsValid p t v

pub replay-IsValid : (cs : List Call) (t : ShardedTracker) → IsValid t → IsValid (replay cs t)
unfolding replay
replay-IsValid [] t v = v
replay-IsValid (c ∷ cs) t v = apply-IsValid c (replay cs t) (replay-IsValid cs t v)

-- A pointer is in the ring of its shard.
abbrev pub quarantined : ℕ → ShardedTracker → Bool
quarantined p t = any (λ q. q == p) (shard_of p t).quarantine

any-set {ℓ} :
    {A : Type ℓ} (f : A → Bool) (xs : List A) (i : ℕ) (v : A)
    → any f (set xs i v) ≡ true
    → (f v ≡ true) ⊎ (any f xs ≡ true)
unfolding any
any-set f [] i v h = inr h
any-set f (x ∷ xs) zero v h = ground (arith, h)
any-set f (x ∷ xs) (suc i) v h = elim (Bool-cases (f x)) [
  | inl e ↦ inr (rw e refl)
  | inr e ↦ elim (any-set f xs i v (rw e at h)) [ inl a ↦ inl a | inr b ↦ inr (rw e b) ]
]

any-clear :
    (p u : ℕ) (xs : List ℕ)
    → p ≢ 0
    → any (λ q. q == p) (map (λ q. if q == u then 0 else q) xs)
      ≡ (if u == p then false else any (λ q. q == p) xs)
unfolding any
any-clear p u [] nz = ground arith
any-clear p u (x ∷ xs) nz = ground (arith, any-clear p u xs nz)

-- The verdict on a pointer without a record depends on the ring alone.
pub erase_verdict :
    (p : ℕ) (t : ShardedTracker)
    → p ≢ 0
    → find p t ≡ none
    → (erase p t).0 ≡ (if quarantined p t then double_free_detected else not_found)
unfolding erase
erase_verdict p t nz h =
    let absent : Dict.lookup p (shard_of p t).records ≡ none = sym (find_of p t nz) ∙ h in
    rw (==_false p 0 nz, absent) (ground arith)

-- What insertion and erasure do to the membership of p in its ring.
pub quarantined-insert :
    (p u : ℕ) (rec : AllocationRecord) (t : ShardedTracker)
    → IsValid t
    → p ≢ 0
    → u ≢ 0
    → quarantined p (insert u rec t) ≡ (if u == p then false else quarantined p t)
unfolding insert insert_in
quarantined-insert p u rec t v nz nu =
    rw (==_false u 0 nu, shard_of-set t u p (insert_in u rec (shard_of u t)) v.shards)
      (elim (eq_or_ne (get_shard_index u) (get_shard_index p)) [
        | inl same ↦
            rw (same, ==_refl (get_shard_index p)) (any-clear p u (shard_of p t).quarantine nz)
        | inr other ↦
            let apart : u ≢ p = λ e. other (ap get_shard_index e) in
            rw (==_false _ _ other, ==_false u p apart) refl
      ])

ring_after :
    (p u : ℕ) (s : Shard)
    → any (λ q. q == p) (evict u s).quarantine ≡ true
    → ((u == p) ≡ true) ⊎ (any (λ q. q == p) s.quarantine ≡ true)
unfolding evict
ring_after p u s h = any-set (λ q. q == p) s.quarantine _ u h

pub quarantined-evict :
    (p u : ℕ) (t : ShardedTracker)
    → IsValid t
    → quarantined p (set t (get_shard_index u) (evict u (shard_of u t))) ≡ true
    → (u ≡ p) ⊎ (quarantined p t ≡ true)
quarantined-evict p u t v h = elim (eq_or_ne (get_shard_index u) (get_shard_index p)) [
  | inl same ↦
      let s = shard_of u t in
      let hit : (get_shard_index u == get_shard_index p) ≡ true =
        rw same (==_refl (get_shard_index p)) in
      let here : any (λ q. q == p) (evict u s).quarantine ≡ true =
        rw (shard_of-set t u p (evict u s) v.shards, hit) at h in
      elim (ring_after p u s here) [ inl e ↦ inl (==_sound u p e) | inr old ↦ inr (rw same at old) ]
  | inr other ↦
      inr (rw (shard_of-set t u p (evict u (shard_of u t)) v.shards, ==_false _ _ other) at h)
]

-- ===== src/Tracker/Shards.antt =====
-- The invariant of the sharded tracker: 64 shards; in each a pointer has one record at most and
-- stands only in the shard that its hash picks; each ring has 256 slots.

use mem_sentry.Base.{
  length-map, eq_or_ne, ℕ, ◌*◌, ◌/◌, ◌%◌, ◌^◌, ◌<◌, ◌≡◌, refl, ◌∙◌, ◌≢◌, inl, inr, none, arith,
  ◌==◌, ==_false, ==_refl, if◌then◌else◌, length, get_or, set, length-set, get_or-set_self,
  get_or-set_ne, get_or-replicate,
}
use mem_sentry.Base.Bits.{bit_and_ones}
use mem_sentry.Base.Dict
use mem_sentry.Base.Dict.{
  Dict, IsUnique, insert-IsUnique, erase-IsUnique, lookup-insert, lookup-erase,
}
use mem_sentry.Memory.{word_mod}
use mem_sentry.Types.{AllocationRecord}
use mem_sentry.Tracker.{
  Shard, ShardedTracker, empty_shard, empty_tracker, get_shard_index, shard_of, insert_in, insert,
  evict, erase,
}

pub record IsShard (i : ℕ) (s : Shard) : Type 0 where
  pub unique : IsUnique s.records
  pub homed : (k : ℕ) → Dict.lookup k s.records ≢ none → (k ≢ 0) × (get_shard_index k ≡ i)
  pub ring : length s.quarantine ≡ 256

pub record IsValid (t : ShardedTracker) : Type 0 where
  pub shards : length t ≡ 64
  pub each : (i : ℕ) → i < 64 → IsShard i (get_or t i empty_shard)

-- The hash picks one of the 64 shards: it is a remainder modulo 64.
pub get_shard_index-lt : (p : ℕ) → get_shard_index p < 64
unfolding get_shard_index
get_shard_index-lt p = omega (arith, bit_and_ones 6 (p / 2 ^ 4 * 0x9E3779B97F4A7C15 % word_mod))

-- A shard that is written back is the one that is read, and the others stay.
pub shard_of-set :
    (t : ShardedTracker) (p q : ℕ) (s : Shard)
    → length t ≡ 64
    → shard_of q (set t (get_shard_index p) s)
      ≡ (if get_shard_index p == get_shard_index q then s else shard_of q t)
shard_of-set t p q s len = elim (eq_or_ne (get_shard_index p) (get_shard_index q)) [
  | inl e ↦
      rw (← e, ==_refl (get_shard_index p))
        (get_or-set_self t (get_shard_index p) s empty_shard (omega (arith, get_shard_index-lt p)))
  | inr d ↦ rw (==_false _ _ d) (get_or-set_ne t _ _ s empty_shard d)
]

set-IsValid :
    (t : ShardedTracker) (p : ℕ) (s : Shard)
    → IsValid t
    → IsShard (get_shard_index p) s
    → IsValid (set t (get_shard_index p) s)
set-IsValid t p s v sv = record {
  shards = length-set t (get_shard_index p) s ∙ v.shards;
  each = λ i h. elim (eq_or_ne (get_shard_index p) i) [
    | inl e ↦ rw (← e) (
        rw
          (get_or-set_self t (get_shard_index p) s empty_shard
            (omega (arith, get_shard_index-lt p, v.shards)))
          sv)
    | inr d ↦ rw (get_or-set_ne t _ i s empty_shard d) (v.each i h)
  ];
}

pub empty_tracker-IsValid : IsValid empty_tracker
empty_tracker-IsValid = record {
  shards = refl;
  each = λ i h.
      rw (get_or-replicate 64 i empty_shard) (record {
        unique = tt;
        homed = λ k e. absurd (e (unfold Dict.lookup in refl));
        ring = refl;
      });
}

insert_in-IsShard :
    (p : ℕ) (rec : AllocationRecord) (s : Shard)
    → p ≢ 0
    → IsShard (get_shard_index p) s
    → IsShard (get_shard_index p) (insert_in p rec s)
unfolding insert_in
insert_in-IsShard p rec s nz v = record {
  unique = insert-IsUnique p rec s.records v.unique;
  homed = λ k e. elim (eq_or_ne p k) [
    | inl same ↦ rw (← same) (nz, refl)
    | inr other ↦ v.homed k (λ n. e (lookup-insert p k rec s.records ∙ rw (==_false p k other) n))
  ];
  ring = length-map _ s.quarantine ∙ v.ring;
}

evict-IsShard : (p i : ℕ) (s : Shard) → IsShard i s → IsShard i (evict p s)
unfolding evict
evict-IsShard p i s v = record {
  unique = erase-IsUnique p s.records v.unique;
  homed = λ k e. v.homed k (λ n. e (ground (arith, lookup-erase p k s.records, n)));
  ring = length-set s.quarantine _ p ∙ v.ring;
}

-- `insert` keeps the invariant.
pub insert-IsValid :
    (p : ℕ) (rec : AllocationRecord) (t : ShardedTracker) → IsValid t → IsValid (insert p rec t)
unfolding insert
insert-IsValid p rec t v = elim (eq_or_ne p 0) [
  | inl z ↦ rw z v
  | inr nz ↦ rw (==_false p 0 nz) (
      set-IsValid t p _ v
        (insert_in-IsShard p rec _ nz (v.each (get_shard_index p) (get_shard_index-lt p))))
]

-- `erase` keeps the invariant, whatever its status.
pub erase-IsValid : (p : ℕ) (t : ShardedTracker) → IsValid t → IsValid (erase p t).2
unfolding erase
erase-IsValid p t v =
    let changed =
      set-IsValid t p _ v
        (evict-IsShard p _ _ (v.each (get_shard_index p) (get_shard_index-lt p))) in
    ground (arith, v, changed)

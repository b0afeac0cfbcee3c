-- ===== src/Tracker/Window.antt =====
-- How long a freed pointer is remembered: the ring of its shard holds it through the next 255
-- erasures, so a second free within them is reported.
use mem_sentry.Base.{
  eq_or_ne, ℕ, zero, suc, ◌+◌, ◌-◌, ◌%◌, ◌≤◌, ◌<◌, ◌≡◌, refl, sym, ◌∙◌, ◌≢◌, inl, inr, true, List,
  [], ◌∷◌, map, none, some, arith, Option-cases, ==_false, ==_refl, if◌then◌else◌, ◌==◌, length,
  get_or, set, any, All, get_or-set_self, get_or-set_ne,
}
use mem_sentry.Types.{AllocationRecord}
use mem_sentry.Tracker.{
  Shard, ShardedTracker, double_free_detected, get_shard_index, shard_of, insert_in, insert, evict,
  erase, find,
}
use mem_sentry.Tracker.Shards.{IsValid, erase-IsValid, shard_of-set, get_shard_index-lt}
use mem_sentry.Tracker.View.{find-insert, find-erase, erase_found, erase_missing}
use mem_sentry.Tracker.Quarantine.{
  Call, inserts, erases, apply, replay, replay-IsValid, erase_verdict,
}

-- The pointer stands in the slot that is overwritten k erasures from now.
pub record Slot (p k : ℕ) (s : Shard) : Type 0 where
  pub slot : ℕ
  pub within : slot < 256
  pub stored : get_or s.quarantine slot 0 ≡ p
  pub ahead : slot ≡ (s.quarantine_head + k) % 256
  pub fresh : k < 256

-- The pointer was freed, and is remembered through k further erasures at least.
pub record Remembered (p k : ℕ) (t : ShardedTracker) : Type 0 where
  pub gone : find p t ≡ none
  pub left : ℕ
  pub enough : k ≤ left
  pub place : Slot p left (shard_of p t)

stored-any : (p i : ℕ) (xs : List ℕ) → p ≢ 0 → get_or xs i 0 ≡ p → any (λ q. q == p) xs ≡ true
unfolding any
stored-any p i [] nz h = absurd (nz (sym h))
stored-any p zero (x ∷ xs) nz h = ground (arith, h)
stored-any p (suc i) (x ∷ xs) nz h = ground (arith, stored-any p i xs nz h)

stored-clear :
    (p u i : ℕ) (xs : List ℕ)
    → u ≢ p
    → get_or xs i 0 ≡ p
    → p ≢ 0
    → get_or (map (λ q. if q == u then 0 else q) xs) i 0 ≡ p
stored-clear p u i [] d h nz = h
stored-clear p u zero (x ∷ xs) d h nz = ground (arith, h, d)
stored-clear p u (suc i) (x ∷ xs) d h nz = stored-clear p u i xs d h nz

evict-Slot_self : (p : ℕ) (s : Shard) → length s.quarantine ≡ 256 → Slot p 255 (evict p s)
unfolding evict
evict-Slot_self p s ring = record {
  slot = s.quarantine_head % 256;
  within = omega arith;
  stored = get_or-set_self s.quarantine (s.quarantine_head % 256) p 0 (omega arith);
  ahead = omega arith;
  fresh = omega arith;
}

evict-Slot : (p u k : ℕ) (s : Shard) → Slot p (suc k) s → Slot p k (evict u s)
unfolding evict
evict-Slot p u k s r =
    let f = r.fresh in
    let a = r.ahead in
    let apart : ¬ (s.quarantine_head % 256 ≡ r.slot) = omega arith in
    record {
      slot = r.slot;
      within = r.within;
      stored = get_or-set_ne s.quarantine (s.quarantine_head % 256) r.slot u 0 apart ∙ r.stored;
      ahead = omega arith;
      fresh = omega arith;
    }

insert_in-Slot :
    (p u k : ℕ) (rec : AllocationRecord) (s : Shard)
    → u ≢ p
    → p ≢ 0
    → Slot p k s
    → Slot p k (insert_in u rec s)
unfolding insert_in
insert_in-Slot p u k rec s d nz r = record {
  slot = r.slot;
  within = r.within;
  stored = stored-clear p u r.slot s.quarantine d r.stored nz;
  ahead = r.ahead;
  fresh = r.fresh;
}

-- A shard that is written back is seen by p only if it is p's.
set-Slot :
    (p u k : ℕ) (s : Shard) (t : ShardedTracker)
    → length t ≡ 64
    → (get_shard_index u ≡ get_shard_index p → Slot p k s)
    → (get_shard_index u ≢ get_shard_index p → Slot p k (shard_of p t))
    → Slot p k (shard_of p (set t (get_shard_index u) s))
set-Slot p u k s t len hit miss =
    rw (shard_of-set t u p s len) (elim (eq_or_ne (get_shard_index u) (get_shard_index p)) [
      | inl same ↦
          let e : (get_shard_index u == get_shard_index p) ≡ true =
            rw same (==_refl (get_shard_index p)) in
          rw e (hit same)
      | inr other ↦ rw (==_false _ _ other) (miss other)
    ])

insert-Remembered :
    (p u k : ℕ) (rec : AllocationRecord) (t : ShardedTracker)
    → IsValid t
    → p ≢ 0
    → u ≢ p
    → Remembered p k t
    → Remembered p k (insert u rec t)
insert-Remembered p u k rec t v nz d r = elim (eq_or_ne u 0) [
  | inl z ↦ rw z (unfold insert in r)
  | inr nu ↦ record {
    gone = find-insert u p rec t v nu ∙ rw (==_false u p d) r.gone;
    left = r.left;
    enough = r.enough;
    place = rw (insert_nonzero u rec t nu) (
        set-Slot p u r.left _ t v.shards
          (λ same. insert_in-Slot p u r.left rec _ d nz (rw (← same) at r.place)) (λ _. r.place));
  }
]
  where
    insert_nonzero :
        (u : ℕ) (rec : AllocationRecord) (t : ShardedTracker)
        → u ≢ 0
        → insert u rec t ≡ set t (get_shard_index u) (insert_in u rec (shard_of u t))
    insert_nonzero u rec t nu = unfold insert in rw (==_false u 0 nu) refl

erase-Remembered :
    (p u k : ℕ) (t : ShardedTracker)
    → IsValid t
    → Remembered p (suc k) t
    → Remembered p k (erase u t).2
erase-Remembered p u k t v r = elim (Option-cases (find u t)) [
  | inl e ↦
      rw (erase_missing u t e).1
        (record { gone = r.gone; left = r.left; enough = omega arith; place = r.place })
  | inr (rec, e) ↦
      let more = r.enough in
      let count : r.left ≡ suc (r.left - 1) = omega arith in
      let gone : find p (erase u t).2 ≡ none = rw (find-erase u p t v) (ground (arith, r.gone)) in
      rw (erase_found u rec t e).1 (elim (eq_or_ne (get_shard_index u) (get_shard_index p)) [
        | inl same ↦ record {
          gone = rw (erase_found u rec t e).1 at gone;
          left = r.left - 1;
          enough = omega arith;
          place =
              set-Slot p u (r.left - 1) _ t v.shards
                (λ _. evict-Slot p u (r.left - 1) _ (rw (← same, count) at r.place))
                (λ other. absurd (other same));
        }
        | inr other ↦ record {
          gone = rw (erase_found u rec t e).1 at gone;
          left = r.left;
          enough = omega arith;
          place = set-Slot p u r.left _ t v.shards (λ same. absurd (other same)) (λ _. r.place);
        }
      ])
]

-- A call that does not hand the pointer out again.
abbrev pub Leaves : ℕ → Call → Type 0
Leaves p (inserts u rec) = u ≢ p
Leaves p (erases u) = Unit

-- The number of erasures in a history.
unfoldable pub erasures : List Call → ℕ
erasures [] = 0
erasures (inserts u rec ∷ cs) = erasures cs
erasures (erases u ∷ cs) = suc (erasures cs)

replay-Remembered :
    (p k : ℕ) (cs : List Call) (t : ShardedTracker)
    → IsValid t
    → p ≢ 0
    → All (Leaves p) cs
    → Remembered p (k + erasures cs) t
    → Remembered p k (replay cs t)
unfolding replay apply erasures
replay-Remembered p k [] t v nz all r = let e : k + 0 ≡ k = omega arith in rw e at r
replay-Remembered p k (inserts u rec ∷ cs) t v nz all r =
    insert-Remembered p u k rec (replay cs t) (replay-IsValid cs t v) nz all.0
      (replay-Remembered p k cs t v nz all.1 r)
replay-Remembered p k (erases u ∷ cs) t v nz all r =
    let e : k + suc (erasures cs) ≡ suc k + erasures cs = omega arith in
    erase-Remembered p u k (replay cs t) (replay-IsValid cs t v)
      (replay-Remembered p (suc k) cs t v nz all.1 (rw e at r))

-- After a successful erase of a pointer of a well formed tracker, and any calls that do not insert
-- it again and erase at most 255 times, its erase is reported as a double free.
pub double_free_window :
    (p : ℕ) (rec : AllocationRecord) (t : ShardedTracker) (cs : List Call)
    → IsValid t
    → find p t ≡ some rec
    → All (Leaves p) cs
    → erasures cs ≤ 255
    → (erase p (replay cs (erase p t).2)).0 ≡ double_free_detected
double_free_window p rec t cs v h all few =
    let (nz, run) = erase_found p rec t h in
    let v' = erase-IsValid p t v in
    let start : Remembered p (0 + erasures cs) (erase p t).2 = record {
      gone = rw (find-erase p p t v, ==_refl p);
      left = 255;
      enough = omega arith;
      place = rw run (
          set-Slot p p 255 _ t v.shards
            (λ _. evict-Slot_self p _ (v.each (get_shard_index p) (get_shard_index-lt p)).ring)
            (λ other. absurd (other refl)));
    } in
    let r = replay-Remembered p 0 cs (erase p t).2 v' nz all start in
    let seen = stored-any p r.place.slot _ nz r.place.stored in
    rw (erase_verdict p (replay cs (erase p t).2) nz r.gone, seen)

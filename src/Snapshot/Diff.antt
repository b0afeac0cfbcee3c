-- ===== src/Snapshot/Diff.antt =====
-- The difference of two snapshots, by the ids that they hold.

use mem_sentry.Base.{
  ℕ, ◌≡◌, refl, sym, ap, ◌∙◌, Bool, true, false, not, ◌&&◌, ◌||◌, List, [], ◌∷◌, arith, ◌==◌,
  ==_refl, ==_false, eq_or_ne, Bool-cases, inl, inr, keep, any, All, fun_ext,
}
use mem_sentry.Base.Dict
use mem_sentry.Base.Dict.{Dict, lookup-insert}
use mem_sentry.Types.{AllocationRecord}
use mem_sentry.Snapshot.{
  HeapSnapshot, is_in, index_by_id, match_after, unmatched, compare_snapshots,
}

-- Some record of the list has the id.
abbrev pub has_id : List AllocationRecord → ℕ → Bool
has_id recs id = any (λ r. r.allocation_id == id) recs

abbrev pub shared : List AllocationRecord → AllocationRecord → Bool
shared recs r = has_id recs r.allocation_id

is_in-insert {ℓ} :
    {V : Type ℓ} (k j : ℕ) (v : V) (d : Dict V) → is_in j (Dict.insert k v d) ≡ k == j || is_in j d
is_in-insert k j v d = ground (arith, lookup-insert k j v d)

-- The index holds the ids of the records.
is_in-index_by_id :
    (k : ℕ) (recs : List AllocationRecord) (m : Dict AllocationRecord)
    → is_in k (index_by_id recs m) ≡ has_id recs k || is_in k m
unfolding index_by_id any
is_in-index_by_id k [] m = refl
is_in-index_by_id k (r ∷ rs) m =
    let rest = is_in-index_by_id k rs (Dict.insert r.allocation_id r m) in
    rest ∙ ground (arith, is_in-insert r.allocation_id k r m)

module _ (m : Dict AllocationRecord) where
  match_after-persistent :
      (recs : List AllocationRecord) (ids : Dict (Unit {0}))
      → (match_after m recs ids).persistent ≡ keep (λ r. is_in r.allocation_id m) recs
  unfolding match_after keep
  match_after-persistent [] ids = refl
  match_after-persistent (r ∷ rs) ids = elim (Bool-cases (is_in r.allocation_id m)) [
    | inl e ↦ rw e (ap (◌∷◌ r) (match_after-persistent rs _))
    | inr e ↦ rw e (match_after-persistent rs _)
  ]

  match_after-fresh :
      (recs : List AllocationRecord) (ids : Dict (Unit {0}))
      → (match_after m recs ids).fresh ≡ keep (λ r. not (is_in r.allocation_id m)) recs
  unfolding match_after keep
  match_after-fresh [] ids = refl
  match_after-fresh (r ∷ rs) ids = elim (Bool-cases (is_in r.allocation_id m)) [
    | inl e ↦ rw e (match_after-fresh rs _)
    | inr e ↦ rw e (ap (◌∷◌ r) (match_after-fresh rs _))
  ]

  match_after-ids :
      (k : ℕ) (recs : List AllocationRecord) (ids : Dict (Unit {0}))
      → is_in k (match_after m recs ids).ids ≡ is_in k ids || (has_id recs k && is_in k m)
  unfolding match_after any
  match_after-ids k [] ids = ground arith
  match_after-ids k (r ∷ rs) ids = elim (Bool-cases (is_in r.allocation_id m)) [
    | inl e ↦
        let ins = is_in-insert r.allocation_id k (tt {0}) ids in
        rw e (
          match_after-ids k rs (Dict.insert r.allocation_id tt ids)
          ∙ elim (eq_or_ne r.allocation_id k) [
            | inl same ↦
                let here : is_in k m ≡ true = rw same at e in
                let hit : (r.allocation_id == k) ≡ true = rw same (==_refl k) in
                rw ins (ground (arith, here, hit))
            | inr other ↦ rw ins (ground (arith, ==_false r.allocation_id k other))
          ])
    | inr e ↦ rw e (
        match_after-ids k rs ids ∙ elim (eq_or_ne r.allocation_id k) [
          | inl same ↦ let absent : is_in k m ≡ false = rw same at e in ground (arith, absent)
          | inr other ↦ ground (arith, ==_false r.allocation_id k other)
        ])
  ]

unmatched-keep :
    (ids : Dict (Unit {0})) (recs : List AllocationRecord)
    → unmatched ids recs ≡ keep (λ r. not (is_in r.allocation_id ids)) recs
unfolding unmatched keep
unmatched-keep ids [] = refl
unmatched-keep ids (r ∷ rs) = ground (arith, unmatched-keep ids rs)

-- Tests that agree on the members keep the same members.
keep_congr {ℓ} :
    {A : Type ℓ} (p q : A → Bool) (xs : List A) → All (λ x. p x ≡ q x) xs → keep p xs ≡ keep q xs
unfolding keep
keep_congr p q [] h = refl
keep_congr p q (x ∷ xs) h = let e = h.0 in let rest = keep_congr p q xs h.1 in rw (e, rest)

All-mono {ℓ κ μ} :
    {A : Type ℓ} {P : A → Type κ} {Q : A → Type μ} (xs : List A)
    → ((x : A) → P x → Q x)
    → All P xs
    → All Q xs
All-mono [] f h = tt
All-mono (x ∷ xs) f h = (f x h.0, All-mono xs f h.1)

-- Each record of a list has its id in the list.
own_id : (recs : List AllocationRecord) → All (λ r. shared recs r ≡ true) recs
unfolding any
own_id [] = tt
own_id (r ∷ rs) = (rw (==_refl r.allocation_id), All-mono rs (λ x h. ground (arith, h)) (own_id rs))

known : (old : List AllocationRecord) (k : ℕ) → is_in k (index_by_id old []) ≡ has_id old k
unfolding Dict.lookup
known old k = ground (arith, is_in-index_by_id k old [])

seen :
    (old now : List AllocationRecord) (k : ℕ)
    → has_id old k ≡ true
    → is_in k (match_after (index_by_id old []) now []).ids ≡ has_id now k
unfolding Dict.lookup
seen old now k h =
    ground (arith, match_after-ids (index_by_id old []) k now [], is_in-index_by_id k old [], h)

module _ (before after : HeapSnapshot) where
  -- The three lists of a snapshot difference, described by ids: persistent are the later records
  -- whose id the earlier snapshot has, new the other later ones, freed the earlier ones whose id
  -- the later snapshot lacks; each in the order of its snapshot.
  pub compare_snapshots_lem :
      let diff = compare_snapshots before after in
      (diff.persistent_allocations
        ≡ keep (shared before.active_allocations) after.active_allocations)
      × (diff.new_allocations
          ≡ keep (λ r. not (shared before.active_allocations r)) after.active_allocations)
      × (diff.freed_allocations
          ≡ keep (λ r. not (shared after.active_allocations r)) before.active_allocations)
  unfolding compare_snapshots
  compare_snapshots_lem =
      let old = before.active_allocations in
      let now = after.active_allocations in
      let m = index_by_id old [] in
      (
        match_after-persistent m now []
            ∙ ap (λ p. keep p now) (fun_ext (λ r. known old r.allocation_id)),
        match_after-fresh m now []
            ∙ ap (λ p. keep p now) (fun_ext (λ r. ap not (known old r.allocation_id))),
        unmatched-keep (match_after m now []).ids old
            ∙ keep_congr _ _ old
                (All-mono old (λ r h. ap not (seen old now r.allocation_id h)) (own_id old)),
      )

-- What is new from one snapshot to another is what is freed on the way back.
pub compare_snapshots-swap :
    (a b : HeapSnapshot)
    → (compare_snapshots a b).new_allocations ≡ (compare_snapshots b a).freed_allocations
compare_snapshots-swap a b = (compare_snapshots_lem a b).1 ∙ sym ((compare_snapshots_lem b a).2)

-- ===== src/Manager/Leaks/Partition.antt =====
-- The three loops over the records agree: each record is either suppressed or reported.
use mem_sentry.Base.{
  ℕ, ◌+◌, ◌≡◌, refl, ap, ◌∙◌, Bool, not, ◌&&◌, ◌||◌, List, [], ◌∷◌, arith, ltb, ◌==◌, Bool-cases,
  inl, inr, length, any, keep,
}
use mem_sentry.Types.{Text, AllocationRecord}
use mem_sentry.StackTrace.{SymbolCache}
use mem_sentry.StackTrace.Resolve.{IsCoherent}
use mem_sentry.Suppression.{contains}
use mem_sentry.Suppression.Rules.{hits, frames_of, is_suppressed_lem}
use mem_sentry.Tracker
use mem_sentry.Tracker.Counting.{size-eq-length}
use mem_sentry.Manager.State.{Platform, State}
use mem_sentry.Manager.Leaks.{
  unsuppressed, any_unsuppressed, count_suppressed, has_unsuppressed_leaks, get_suppressed_count,
  leak_report,
}

module _ (os : Platform) (rules : List Text) where
  -- Whether a record is suppressed, with no cache in sight.
  abbrev pub matches : AllocationRecord → Bool
  matches rec =
      (not (rec.tag == 0) && any (λ r. contains r (os.text_at rec.tag)) rules)
      || any (λ f. any (hits f) rules) (frames_of os.linker rec)

  pub unsuppressed-IsCoherent :
      (recs : List AllocationRecord) (cache : SymbolCache)
      → IsCoherent os.linker cache
      → IsCoherent os.linker (unsuppressed os rules recs cache).1
  unfolding unsuppressed
  unsuppressed-IsCoherent [] cache c = c
  unsuppressed-IsCoherent (r ∷ rs) cache c =
      let (verdict, coherent) = is_suppressed_lem os.text_at os.linker rules r cache c in
      let rest = unsuppressed-IsCoherent rs _ coherent in
      elim (Bool-cases (matches r)) [
        | inl hit ↦ rw (verdict, hit) rest
        | inr miss ↦ rw (verdict, miss) rest
      ]

  pub unsuppressed-keep :
      (recs : List AllocationRecord) (cache : SymbolCache)
      → IsCoherent os.linker cache
      → ((unsuppressed os rules recs cache).0 ≡ keep (λ r. not (matches r)) recs)
  unfolding unsuppressed keep
  unsuppressed-keep [] cache c = refl
  unsuppressed-keep (r ∷ rs) cache c =
      let (verdict, coherent) = is_suppressed_lem os.text_at os.linker rules r cache c in
      let rest = unsuppressed-keep rs _ coherent in
      elim (Bool-cases (matches r)) [
        | inl hit ↦ rw (verdict, hit) rest
        | inr miss ↦ rw (verdict, miss) (ap (◌∷◌ r) rest)
      ]

  pub any_unsuppressed-any :
      (recs : List AllocationRecord) (cache : SymbolCache)
      → IsCoherent os.linker cache
      → (any_unsuppressed os rules recs cache).0 ≡ any (λ r. not (matches r)) recs
  unfolding any_unsuppressed any
  any_unsuppressed-any [] cache c = refl
  any_unsuppressed-any (r ∷ rs) cache c =
      let (verdict, coherent) = is_suppressed_lem os.text_at os.linker rules r cache c in
      let rest = any_unsuppressed-any rs _ coherent in
      elim (Bool-cases (matches r)) [
        | inl hit ↦ rw (verdict, hit) rest
        | inr miss ↦ rw (verdict, miss)
      ]

  count_suppressed-keep :
      (count : ℕ) (recs : List AllocationRecord) (cache : SymbolCache)
      → IsCoherent os.linker cache
      → (count_suppressed os rules count recs cache).0 ≡ count + length (keep matches recs)
  unfolding count_suppressed keep
  count_suppressed-keep count [] cache c = omega arith
  count_suppressed-keep count (r ∷ rs) cache c =
      let (verdict, coherent) = is_suppressed_lem os.text_at os.linker rules r cache c in
      elim (Bool-cases (matches r)) [
        | inl hit ↦
            let rest = count_suppressed-keep (count + 1) rs _ coherent in
            rw (count_suppressed, verdict, hit) (rest ∙ omega arith)
        | inr miss ↦
            rw (count_suppressed, verdict, miss) (count_suppressed-keep count rs _ coherent)
      ]

any-keep {ℓ} : {A : Type ℓ} (p : A → Bool) (xs : List A) → any p xs ≡ ltb 0 (length (keep p xs))
unfolding any keep
any-keep p [] = refl
any-keep p (x ∷ xs) = elim (Bool-cases (p x)) [
  | inl e ↦ rw e (ground arith)
  | inr e ↦ rw e (any-keep p xs)
]

length-keep {ℓ} :
    {A : Type ℓ} (p : A → Bool) (xs : List A)
    → length (keep p xs) + length (keep (λ x. not (p x)) xs) ≡ length xs
unfolding keep
length-keep p [] = refl
length-keep p (x ∷ xs) = ground (arith, length-keep p xs)

-- With a coherent symbol cache, the suppressed count and the leaks of the report add up to the
-- tracker's size, and `has_unsuppressed_leaks` holds exactly if the report has a leak.
pub leaks_partition :
    (os : Platform) (s : State)
    → IsCoherent os.linker s.symbol_cache
    → ((get_suppressed_count os s).0 + length ((leak_report os s).0).leaks ≡ Tracker.size s.tracker)
      × ((has_unsuppressed_leaks os s).0 ≡ ltb 0 (length ((leak_report os s).0).leaks))
unfolding get_suppressed_count leak_report has_unsuppressed_leaks
leaks_partition os s c =
    let recs = Tracker.snapshot_all s.tracker in
    let reported = unsuppressed-keep os s.rules recs s.symbol_cache c in
    let counted = count_suppressed-keep os s.rules 0 recs s.symbol_cache c in
    let found = any_unsuppressed-any os s.rules recs s.symbol_cache c in
    rw (counted, reported, found)
      (
        omega (arith, length-keep (matches os s.rules) recs, size-eq-length s.tracker),
        any-keep (λ r. not (matches os s.rules r)) recs,
      )

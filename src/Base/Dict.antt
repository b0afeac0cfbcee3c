-- ===== src/Base/Dict.antt =====
-- Dictionaries keyed by numbers, as association lists: the standard library's unordered_map and
-- unordered_set, whose order of iteration the code does not fix.
use mem_sentry.Base.{
  ℕ, ◌+◌, ◌≡◌, refl, Bool, true, List, [], ◌∷◌, Option, none, some, arith, ◌==◌, if◌then◌else◌,
  length, total, any, Bool-cases, inl, inr, ==_refl,
}

abbrev pub Dict {ℓ} : Type ℓ → Type ℓ
Dict V = List (ℕ × V)

module _ {ℓ} {V : Type ℓ} where
  unfoldable pub lookup : ℕ → Dict V → Option V
  lookup k [] = none
  lookup k (e ∷ d) = if e.0 == k then some e.1 else lookup k d

  -- `d[k] = v`
  unfoldable pub insert : ℕ → V → Dict V → Dict V
  insert k v [] = (k, v) ∷ []
  insert k v (e ∷ d) = if e.0 == k then (k, v) ∷ d else e ∷ insert k v d

  unfoldable pub erase : ℕ → Dict V → Dict V
  erase k [] = []
  erase k (e ∷ d) = if e.0 == k then erase k d else e ∷ erase k d

  -- Each key stands in one entry.
  abbrev pub IsUnique : Dict V → Type ℓ
  IsUnique [] = Unit
  IsUnique (e ∷ d) = (lookup e.0 d ≡ none) × IsUnique d

  pub lookup-insert :
      (k j : ℕ) (v : V) (d : Dict V)
      → lookup j (insert k v d) ≡ (if k == j then some v else lookup j d)
  unfolding lookup insert
  lookup-insert k j v [] = refl
  lookup-insert k j v (e ∷ d) = ground (arith, lookup-insert k j v d)

  pub lookup-erase :
      (k j : ℕ) (d : Dict V) → lookup j (erase k d) ≡ (if k == j then none else lookup j d)
  unfolding lookup erase
  lookup-erase k j [] = ground arith
  lookup-erase k j (e ∷ d) = ground (arith, lookup-erase k j d)

  pub insert-IsUnique : (k : ℕ) (v : V) (d : Dict V) → IsUnique d → IsUnique (insert k v d)
  unfolding lookup insert
  insert-IsUnique k v [] u = (refl, tt)
  insert-IsUnique k v (e ∷ d) u = ground (arith, insert-IsUnique k v d u.1, lookup-insert k e.0 v d)

  pub erase-IsUnique : (k : ℕ) (d : Dict V) → IsUnique d → IsUnique (erase k d)
  unfolding lookup erase
  erase-IsUnique k [] u = tt
  erase-IsUnique k (e ∷ d) u = ground (arith, erase-IsUnique k d u.1, lookup-erase k e.0 d)

  -- A measure of the entries, summed over the dictionary, counts a new entry once.
  pub total-insert_new :
      (f : ℕ × V → ℕ) (k : ℕ) (v : V) (d : Dict V)
      → lookup k d ≡ none
      → total f (insert k v d) ≡ total f d + f (k, v)
  unfolding lookup insert total
  total-insert_new f k v [] h = omega arith
  total-insert_new f k v (e ∷ d) h = ground (arith, total-insert_new f k v d)

  pub erase_absent : (k : ℕ) (d : Dict V) → lookup k d ≡ none → erase k d ≡ d
  unfolding lookup erase
  erase_absent k [] h = refl
  erase_absent k (e ∷ d) h = ground (arith, erase_absent k d)

  -- Erasing an entry takes its share from the sum.
  pub total-erase :
      (f : ℕ × V → ℕ) (k : ℕ) (v : V) (d : Dict V)
      → IsUnique d
      → lookup k d ≡ some v
      → total f (erase k d) + f (k, v) ≡ total f d
  unfolding lookup erase total
  total-erase f k v [] u h = ground (arith, h)
  total-erase f k v ((j, w) ∷ d) u h = ground (arith, total-erase f k v d u.1, erase_absent k d)

  pub length-total : (d : Dict V) → length d ≡ total (λ e. 1) d
  unfolding total
  length-total [] = refl
  length-total (e ∷ d) = omega (arith, length-total d)

  -- An entry that passes a test, by its key.
  pub any-lookup :
      (p : V → Bool) (d : Dict V)
      → IsUnique d
      → any (λ e. p e.1) d ≡ true
      → (k : ℕ) × (v : V) × (lookup k d ≡ some v) × (p v ≡ true)
  unfolding lookup any
  any-lookup p [] u h = absurd (ground (arith, h))
  any-lookup p ((j, w) ∷ d) u h = elim (Bool-cases (p w)) [
    | inl here ↦ (j, w, rw (==_refl j), here)
    | inr there ↦
        let (k, v, found, pass) = any-lookup p d u.1 (rw there at h) in
        (k, v, ground (arith, u.0, found), pass)
  ]

  pub lookup-any :
      (p : V → Bool) (k : ℕ) (v : V) (d : Dict V)
      → lookup k d ≡ some v
      → p v ≡ true
      → any (λ e. p e.1) d ≡ true
  unfolding lookup any
  lookup-any p k v [] h t = absurd (ground (arith, h))
  lookup-any p k v (e ∷ d) h t = ground (arith, lookup-any p k v d)

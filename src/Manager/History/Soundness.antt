-- ===== src/Manager/History/Soundness.antt =====
-- Every effect keeps the books right.
use mem_sentry.Base.{
  ℕ, ◌+◌, ◌≤◌, ◌<◌, ◌≡◌, refl, sym, ◌∙◌, ◌≢◌, ◌⊎◌, inl, inr, List, ◌∷◌, none, some, ==_false,
  ==_refl, eq_or_ne, Option-cases, arith, subst,
}
use mem_sentry.Types.{AllocationRecord}
use mem_sentry.Stats.{MemoryStats, update_on_alloc, update_on_free}
use mem_sentry.Tracker
use mem_sentry.Tracker.View.{find-insert, find-erase}
use mem_sentry.Manager.State.{Platform, SystemCall, mallocs, frees, reallocs}
use mem_sentry.Manager.Accounts.{AreInStep, insert-AreInStep, erase-AreInStep}
use mem_sentry.Manager.History.{
  block_at, Apart, IsLog, IsAllocator, Books, HasRoom, Effect, quiet, passed, registered, withheld,
  returned, freed, resized, IsSound,
}

block_at-frees :
    (p b : ℕ) (cs : List SystemCall) → p ≢ b → block_at (frees p ∷ cs) b ≡ block_at cs b
unfolding block_at
block_at-frees p b cs other = rw (==_false p b other)

block_at-new : (n p : ℕ) (cs : List SystemCall) → p ≢ 0 → block_at (mallocs n p ∷ cs) p ≡ some n
unfolding block_at
block_at-new n p cs mapped = rw (==_false p 0 mapped, ==_refl p)

-- What was found before is found after.
found_before :
    (p k : ℕ) (rec : AllocationRecord) (stats : MemoryStats) (t : Tracker.ShardedTracker)
    → AreInStep stats t
    → Tracker.find k (Tracker.erase p t).2 ≡ some rec
    → (p ≢ k) × (Tracker.find k t ≡ some rec)
found_before p k rec stats t b h = elim (eq_or_ne p k) [
  | inl same ↦
      let gone = find-erase p k t b.valid in
      absurd (ground (arith, rw (same, ==_refl k) at gone, h))
  | inr other ↦
      let kept = find-erase p k t b.valid in (other, sym (rw (==_false p k other) at kept) ∙ h)
]

Apart-sym : (p n b m : ℕ) → Apart p n b m → Apart b m p n
Apart-sym p n b m a = (λ e. a.0 (sym e), elim a.1 [ inl x ↦ inr x | inr x ↦ inl x ])

-- What an insertion shows under a pointer.
found_after :
    (user k : ℕ) (rec q : AllocationRecord) (stats : MemoryStats) (t : Tracker.ShardedTracker)
    → AreInStep stats t
    → user ≢ 0
    → Tracker.find k (Tracker.insert user rec t) ≡ some q
    → ((user ≡ k) × (rec ≡ q)) ⊎ ((user ≢ k) × (Tracker.find k t ≡ some q))
found_after user k rec q stats t b nz h =
    let law = find-insert user k rec t b.valid nz in
    elim (eq_or_ne user k) [
      | inl same ↦ inl (same, cc (rw (same, ==_refl k) at law, h))
      | inr other ↦ inr (other, sym (rw (==_false user k other) at law) ∙ h)
    ]

module _ (os : Platform) (sys : IsAllocator os) where
  block_at-mallocs :
      (n b m : ℕ) (cs : List SystemCall)
      → IsLog os cs
      → block_at cs b ≡ some m
      → block_at (mallocs n (os.malloc cs n) ∷ cs) b ≡ some m
  unfolding block_at
  block_at-mallocs n b m cs log h = elim (eq_or_ne (os.malloc cs n) 0) [
    | inl failed ↦ rw failed h
    | inr mapped ↦
        let away = sys.malloc_apart cs n b m log mapped h in
        rw (==_false _ 0 mapped, ==_false _ b away.0) h
  ]

  block_at-reallocs :
      (p n b m : ℕ) (cs : List SystemCall)
      → IsLog os cs
      → block_at cs p ≢ none
      → p ≢ b
      → block_at cs b ≡ some m
      → block_at (reallocs p n (os.realloc cs p n) ∷ cs) b ≡ some m
  unfolding block_at
  block_at-reallocs p n b m cs log out other h = elim (eq_or_ne (os.realloc cs p n) 0) [
    | inl failed ↦ rw failed h
    | inr mapped ↦
        let away = sys.realloc_apart cs p n b m log out mapped h other in
        rw (==_false _ 0 mapped, ==_false _ b away.0, ==_false p b other) h
  ]

  -- Only calls are added, and the tracked blocks stay out.
  calls-IsSound :
      (b : Books) (cs : List SystemCall)
      → IsSound os b
      → IsLog os cs
      → ((k : ℕ) (rec : AllocationRecord)
          → Tracker.find k b.tracker ≡ some rec
          → block_at b.calls rec.raw_ptr ≡ some rec.total_size
          → block_at cs rec.raw_ptr ≡ some rec.total_size)
      → IsSound os (record b { calls = cs })
  calls-IsSound b cs h log still = record {
    log = log;
    in_step = h.in_step;
    owned =
        λ k rec found. let mine = h.owned k rec found in (still k rec found mine.0, mine.1, mine.2);
    apart = h.apart;
  }

  -- A new block is apart from all that are tracked, so its user address is new.
  new_user :
      (b : Books) (user : ℕ) (rec : AllocationRecord)
      → IsSound os b
      → rec.raw_ptr ≡ os.malloc b.calls rec.total_size
      → rec.raw_ptr ≢ 0
      → rec.raw_ptr ≤ user
      → user < rec.raw_ptr + rec.total_size
      → (k : ℕ) (q : AllocationRecord) → Tracker.find k b.tracker ≡ some q
      → Apart rec.raw_ptr rec.total_size q.raw_ptr q.total_size
  new_user b user rec h got mapped lo hi k q found =
      let mine = h.owned k q found in
      let away =
        sys.malloc_apart b.calls rec.total_size q.raw_ptr q.total_size h.log (rw (← got) mapped)
          mine.0 in
      rw got away

  fresh_user :
      (b : Books) (user : ℕ) (rec : AllocationRecord)
      → IsSound os b
      → rec.raw_ptr ≡ os.malloc b.calls rec.total_size
      → rec.raw_ptr ≢ 0
      → rec.raw_ptr ≤ user
      → user < rec.raw_ptr + rec.total_size
      → Tracker.find user b.tracker ≡ none
  fresh_user b user rec h got mapped lo hi = elim (Option-cases (Tracker.find user b.tracker)) [
    | inl absent ↦ absent
    | inr (q, found) ↦
        let mine = h.owned user q found in
        let away = new_user b user rec h got mapped lo hi user q found in
        absurd (elim away.1 [
          | inl below ↦ omega (arith, below, mine)
          | inr above ↦ omega (arith, above, mine)
        ])
  ]

  registered-IsSound :
      (b : Books) (user : ℕ) (rec : AllocationRecord)
      → IsSound os b
      → rec.raw_ptr ≡ os.malloc b.calls rec.total_size
      → rec.raw_ptr ≢ 0
      → rec.raw_ptr ≤ user
      → user < rec.raw_ptr + rec.total_size
      → HasRoom rec.requested_size b
      → IsSound os (record {
        stats = update_on_alloc rec.requested_size b.stats;
        tracker = Tracker.insert user rec b.tracker;
        calls = mallocs rec.total_size rec.raw_ptr ∷ b.calls;
      })
  unfolding IsLog block_at
  registered-IsSound b user rec h got mapped lo hi room =
      let nz : user ≢ 0 = λ z. mapped (omega (arith, z, lo)) in
      let new = fresh_user b user rec h got mapped lo hi in
      let away = new_user b user rec h got mapped lo hi in
      let seen =
        λ (k : ℕ) (q : AllocationRecord)
            (found : Tracker.find k (Tracker.insert user rec b.tracker) ≡ some q).
          found_after user k rec q b.stats b.tracker h.in_step nz found in
      record {
        log = (got, h.log);
        in_step = insert-AreInStep user rec b.stats b.tracker nz new room.0 room.1 h.in_step;
        owned = λ k q found. elim (seen k q found) [
          | inl (at, same) ↦
              subst
                (λ (x : AllocationRecord).
                  (block_at (mallocs rec.total_size rec.raw_ptr ∷ b.calls) x.raw_ptr
                    ≡ some x.total_size)
                  × (x.raw_ptr ≤ k)
                  × (k < x.raw_ptr + x.total_size))
                same
                (
                  block_at-new rec.total_size rec.raw_ptr b.calls mapped,
                  omega (arith, at, lo),
                  omega (arith, at, hi),
                )
          | inr (other, old) ↦
              let mine = h.owned k q old in
              (
                rw (==_false _ 0 mapped, ==_false _ q.raw_ptr (away k q old).0) mine.0,
                mine.1,
                mine.2,
              )
        ];
        apart = λ j k r q fj fk ne. elim (seen j r fj) [
          | inl (at, same) ↦ elim (seen k q fk) [
            | inl (again, _) ↦ absurd (ne (sym at ∙ again))
            | inr (other, old) ↦
                subst
                  (λ (x : AllocationRecord). Apart x.raw_ptr x.total_size q.raw_ptr q.total_size)
                  same (away k q old)
          ]
          | inr (apart_j, old_j) ↦ elim (seen k q fk) [
            | inl (at, same) ↦
                subst
                  (λ (x : AllocationRecord). Apart r.raw_ptr r.total_size x.raw_ptr x.total_size)
                  same (Apart-sym _ _ _ _ (away j r old_j))
            | inr (apart_k, old_k) ↦ h.apart j k r q old_j old_k ne
          ]
        ];
      }

  erased-IsSound :
      (b : Books) (p : ℕ) (rec : AllocationRecord) (cs : List SystemCall)
      → IsSound os b
      → Tracker.find p b.tracker ≡ some rec
      → IsLog os cs
      → ((k m : ℕ) → rec.raw_ptr ≢ k → block_at b.calls k ≡ some m → block_at cs k ≡ some m)
      → IsSound os (record {
        stats = update_on_free rec.requested_size b.stats;
        tracker = (Tracker.erase p b.tracker).2;
        calls = cs;
      })
  erased-IsSound b p rec cs h tracked log still = record {
    log = log;
    in_step = erase-AreInStep p rec b.stats b.tracker tracked h.in_step;
    owned = λ k q found.
        let (other, old) = found_before p k q b.stats b.tracker h.in_step found in
        let mine = h.owned k q old in
        let away = h.apart p k rec q tracked old other in
        (still q.raw_ptr q.total_size away.0 mine.0, mine.1, mine.2);
    apart = λ j k r q fj fk.
        h.apart j k r q (found_before p j r b.stats b.tracker h.in_step fj).1
          (found_before p k q b.stats b.tracker h.in_step fk).1;
  }

  pub Effect-IsSound : (b b' : Books) → IsSound os b → Effect os b b' → IsSound os b'
  unfolding IsLog
  Effect-IsSound b b' h (quiet e) = rw e h
  Effect-IsSound b b' h (passed n e) = rw e (
      calls-IsSound b _ h (refl, h.log)
        (λ k rec found out. block_at-mallocs n rec.raw_ptr rec.total_size b.calls h.log out))
  Effect-IsSound b b' h (registered user rec got mapped lo hi room e) =
      rw e (registered-IsSound b user rec h got mapped lo hi room)
  Effect-IsSound b b' h (withheld p rec tracked e) =
      rw e (erased-IsSound b p rec b.calls h tracked h.log (λ k m other out. out))
  Effect-IsSound b b' h (returned p rec tracked e) =
      let mine = (h.owned p rec tracked).0 in
      rw e (
        erased-IsSound b p rec _ h tracked ((λ gone. cc (gone, mine)), h.log)
          (λ k m other out. block_at-frees rec.raw_ptr k b.calls other ∙ out))
  Effect-IsSound b b' h (freed p foreign e) = rw e (
      calls-IsSound b _ h (foreign.out, h.log)
        (λ k rec found out.
          block_at-frees p rec.raw_ptr b.calls (λ z. foreign.untracked k rec found (sym z)) ∙ out))
  Effect-IsSound b b' h (resized p n foreign e) = rw e (
      calls-IsSound b _ h (foreign.out, refl, h.log)
        (λ k rec found out.
          block_at-reallocs p n rec.raw_ptr rec.total_size b.calls h.log foreign.out
            (λ z. foreign.untracked k rec found (sym z)) out))

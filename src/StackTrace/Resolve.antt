-- ===== src/StackTrace/Resolve.antt =====
-- What capturing and resolving return, whatever the state of the cache.
use mathlib.Core.Path.{ap₂}
use mem_sentry.Base.{
  eq_or_ne, ==_false, leb→le, ℕ, zero, suc, ◌+◌, ◌%◌, ◌^◌, ◌≤◌, ◌<◌, min, ◌≡◌, refl, ap, not, List,
  [], ◌∷◌, map, some, arith, ◌==◌, ltb, leb, Bool-cases, Option-cases, inl, inr, if◌then◌else◌,
  length, length-take-le, take, drop, keep,
}
use mem_sentry.Base.Dict
use mem_sentry.Base.Dict.{lookup-insert}
use mem_sentry.Types.{StackFrame}
use mem_sentry.StackTrace.{
  Linker, SymbolCache, copy_frames, capture, symbolize, resolve_frame, resolve_list, resolve,
}

copy_frames_lem :
    (fs : List ℕ) (skip room : ℕ) → copy_frames fs skip room ≡ take room (drop skip fs)
unfolding copy_frames
copy_frames_lem [] zero zero = refl
copy_frames_lem [] zero (suc room) = refl
copy_frames_lem [] (suc skip) zero = refl
copy_frames_lem [] (suc skip) (suc room) = refl
copy_frames_lem (f ∷ fs) (suc skip) room = copy_frames_lem fs skip room
copy_frames_lem (f ∷ fs) zero zero = refl
copy_frames_lem (f ∷ fs) zero (suc room) = ap (◌∷◌ f) (copy_frames_lem fs zero room)

drop_all : (n : ℕ) (xs : List ℕ) → length xs ≤ n → drop n xs ≡ []
drop_all zero [] h = refl
drop_all zero (x ∷ xs) h = absurd (omega arith)
drop_all (suc n) [] h = refl
drop_all (suc n) (x ∷ xs) h = drop_all n xs (omega arith)

take_nil : (n : ℕ) → take {A = ℕ} n [] ≡ []
take_nil zero = refl
take_nil (suc n) = refl

capture_eq :
    (backtrace : ℕ → List ℕ) (depth skip : ℕ)
    → depth + skip < 2 ^ 31
    → capture backtrace depth skip ≡ take depth (drop skip (backtrace (min 64 (depth + skip))))
unfolding capture
capture_eq backtrace depth skip h =
    let wanted : (depth + skip) % 2 ^ 32 ≡ depth + skip = omega arith in
    let at_most : (if ltb 64 (depth + skip) then 64 else depth + skip) ≡ min 64 (depth + skip) =
      ground arith in
    let buffer = backtrace (min 64 (depth + skip)) in
    rw (wanted, at_most)
      (elim (eq_or_ne depth 0) [
        | inl z ↦ rw z
        | inr nz ↦ rw (==_false depth 0 nz) (elim (Bool-cases (leb (length buffer) skip)) [
          | inl short ↦ rw (short, drop_all skip buffer (leb→le _ _ short), take_nil depth)
          | inr long ↦ rw (long, copy_frames_lem buffer skip depth)
        ])
      ])

-- With depth + skip below 2^31, `capture` writes the frames of the backtrace of at most 64 after
-- the skipped ones, as many as there is room for, and at most `depth`.
pub capture_lem :
    (backtrace : ℕ → List ℕ) (depth skip : ℕ)
    → depth + skip < 2 ^ 31
    → (capture backtrace depth skip ≡ take depth (drop skip (backtrace (min 64 (depth + skip)))))
      × (length (capture backtrace depth skip) ≤ depth)
capture_lem backtrace depth skip h =
    let frames = capture_eq backtrace depth skip h in (frames, rw frames (length-take-le depth _))

-- A cache that holds only what would be computed again.
abbrev pub IsCoherent : Linker → SymbolCache → Type 0
IsCoherent linker cache =
    (a : ℕ) (f : StackFrame) → Dict.lookup a cache ≡ some f → f ≡ symbolize linker a

resolve_frame-symbolize :
    (linker : Linker) (a : ℕ) (cache : SymbolCache)
    → IsCoherent linker cache
    → ((resolve_frame linker a cache).0 ≡ symbolize linker a)
      × IsCoherent linker (resolve_frame linker a cache).1
unfolding resolve_frame
resolve_frame-symbolize linker a cache c = elim (Option-cases (Dict.lookup a cache)) [
  | inr (f, e) ↦ rw (e, resolve_frame) (c a f e, c)
  | inl e ↦
      rw (e, resolve_frame)
        (
          refl,
          λ b f h. elim (eq_or_ne a b) [
            | inl same ↦
                ground (
                  arith,
                  lookup-insert a b (symbolize linker a) cache,
                  h,
                  ap (symbolize linker) same,
                )
            | inr other ↦
                c b f (ground (arith, lookup-insert a b (symbolize linker a) cache, h, other))
          ],
        )
]

resolve_list_lem :
    (linker : Linker) (fs : List ℕ) (cache : SymbolCache)
    → IsCoherent linker cache
    → ((resolve_list linker fs cache).0 ≡ map (symbolize linker) (keep (λ f. not (f == 0)) fs))
      × IsCoherent linker (resolve_list linker fs cache).1
unfolding resolve_list keep
resolve_list_lem linker [] cache c = (refl, c)
resolve_list_lem linker (f ∷ fs) cache c = elim (Bool-cases (f == 0)) [
  | inl z ↦ rw z (resolve_list_lem linker fs cache c)
  | inr nz ↦
      let (first, kept) = resolve_frame-symbolize linker f cache c in
      let (rest, coherent) = resolve_list_lem linker fs _ kept in
      rw nz (ap₂ ◌∷◌ first rest, coherent)
]

-- With a coherent symbol cache, resolving frames gives the symbolized frames that are not null, in
-- order, as if there were no cache, and the cache stays coherent.
pub resolve_lem :
    (linker : Linker) (frames : List ℕ) (count : ℕ) (cache : SymbolCache)
    → IsCoherent linker cache
    → ((resolve linker frames count cache).0
        ≡ map (symbolize linker) (keep (λ f. not (f == 0)) (take count frames)))
      × IsCoherent linker (resolve linker frames count cache).1
unfolding resolve
resolve_lem linker frames count cache c = resolve_list_lem linker (take count frames) cache c

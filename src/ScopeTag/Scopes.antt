-- ===== src/ScopeTag/Scopes.antt =====
-- Nested scopes: each sees its own tag, and the tag before it is current again after it.
use mem_sentry.Base.{ℕ, ◌≡◌, refl, ap, ◌∙◌, List, [], ◌∷◌, ◌++◌, arith}
use mathlib.Core.Path.{ap₂}
use mem_sentry.ScopeTag.{get_current_tag, enter_scope, leave_scope}

-- What a thread does: it reads the current tag, or opens a scope around an inner part.
pub data Acts : Type 0 where
  done : Acts
  reads : Acts → Acts
  scopes : ℕ → Acts → Acts → Acts

-- The active tag after, and the tags that were read, in order.
unfoldable pub run : ℕ → Acts → ℕ → ℕ × List ℕ
run general done active = (active, [])
run general (reads rest) active =
    let r = run general rest active in (r.0, get_current_tag general active ∷ r.1)
run general (scopes tag inner rest) active =
    let entered = enter_scope general tag active in
    let i = run general inner entered.1 in
    let r = run general rest (leave_scope entered.0 i.0) in (r.0, i.1 ++ r.1)

-- What should be read where `current` is the current tag.
unfoldable pub tags : ℕ → Acts → ℕ → List ℕ
tags general done current = []
tags general (reads rest) current = current ∷ tags general rest current
tags general (scopes tag inner rest) current =
    tags general inner (get_current_tag general tag) ++ tags general rest current

saved :
    (general active : ℕ)
    → get_current_tag general (get_current_tag general active) ≡ get_current_tag general active
unfolding get_current_tag
saved general active = ground arith

-- In nested scopes the tag of the innermost is read ("General" for a null one), and after a scope
-- the tag that was current before.
pub run-tags :
    (general : ℕ) (a : Acts) (active : ℕ)
    → (get_current_tag general (run general a active).0 ≡ get_current_tag general active)
      × ((run general a active).1 ≡ tags general a (get_current_tag general active))
unfolding run tags enter_scope leave_scope
run-tags general done active = (refl, refl)
run-tags general (reads rest) active =
    let r = run-tags general rest active in (r.0, ap (◌∷◌ (get_current_tag general active)) r.1)
run-tags general (scopes tag inner rest) active =
    let i = run-tags general inner tag in
    let r = run-tags general rest (get_current_tag general active) in
    let s = saved general active in (r.0 ∙ s, ap₂ ◌++◌ i.1 (r.1 ∙ ap (tags general rest) s))

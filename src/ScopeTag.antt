-- ===== src/ScopeTag.antt =====
-- include/memsentry/profiler/scope_tag.hpp: the thread-local tag and the scopes that set it. A tag is
-- the address of a text, 0 where there is none; `general` is the address of the literal "General".
pub mod Scopes
use mem_sentry.Base.{ℕ, ◌==◌, if◌then◌else◌}

unfoldable pub get_current_tag : ℕ → ℕ → ℕ
get_current_tag general active = if active == 0 then general else active

-- The constructor of `ScopedTag` returns the tag that it saved, and the new active tag; the
-- destructor sets the active tag to the saved one.
unfoldable pub enter_scope : ℕ → ℕ → ℕ → ℕ × ℕ
unfolding get_current_tag
enter_scope general tag active = (get_current_tag general active, tag)

unfoldable pub leave_scope : ℕ → ℕ → ℕ
leave_scope prev active = prev

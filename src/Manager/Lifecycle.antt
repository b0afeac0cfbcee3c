-- ===== src/Manager/Lifecycle.antt =====
-- Starting and stopping the library: `initialize` and `shutdown` of src/memsentry.cpp, with the
-- provider's `cleanup`, and setting its suppression rules.
use mem_sentry.Base.{◌+◌, true, false, not, [], if◌then◌else◌}
use mem_sentry.Types.{Text, Config}
use mem_sentry.Suppression.{add_rule, clear}
use mem_sentry.Manager.State.{State, guarded_unit}

-- Everything of the first call but the provider's `initialize`, which does nothing.
unfoldable pub initialize : Config → State → State
initialize config = guarded_unit λ s.
    let started = record s {
      config = config;
      initialized = true;
      exit_hooks = if config.auto_report_on_exit then s.exit_hooks + 1 else s.exit_hooks;
    } in
    if s.initialized then record s { config = config } else started

-- `StackTraceProvider::cleanup`, without the Windows call.
unfoldable pub cleanup : State → State
cleanup = guarded_unit λ s.
    if not s.provider_initialized
    then s
    else record s { provider_initialized = false; symbol_cache = [] }

unfoldable pub shutdown : State → State
unfolding cleanup
shutdown s =
    if not s.initialized then s else guarded_unit cleanup (record s { initialized = false })

-- Both hold the guard and the lock of the suppression engine.
unfoldable pub suppress : Text → State → State
suppress pattern = guarded_unit λ s. record s { rules = add_rule pattern s.rules }

unfoldable pub clear_suppressions : State → State
clear_suppressions = guarded_unit λ s. record s { rules = clear s.rules }

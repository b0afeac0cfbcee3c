-- ===== src/Tests/World.antt =====
-- A small platform and states of it, for the tests.
use mem_sentry.Base.{◌+◌, ◌*◌, [], none, true, false, length}
use mem_sentry.Base.Int.{pos}
use mem_sentry.Types.{default_config}
use mem_sentry.Stats.{zero_stats}
use mem_sentry.Tracker.{empty_tracker}
use mem_sentry.Histogram.{new_histogram}
use mem_sentry.Sampling.{Doubles}
use mem_sentry.StackTrace.{Linker}
use mem_sentry.Manager.State.{Platform, State}

abbrev pub no_doubles : Doubles
no_doubles = record {
  of_uint64 = λ x. x;
  to_int64 = pos;
  to_uint64 = λ x. x;
  add = λ x y. x;
  div = λ x y. x;
  mul = λ x y. x;
  sub = λ x y. x;
  neg = λ x. x;
  log = λ x. x;
  le = λ x y. false;
  lt = λ x y. false;
  zero = 0;
  one = 1;
  tiny = 0;
  two_pow_53 = 0;
}

abbrev pub no_linker : Linker
no_linker = record { dladdr = λ a. none; demangle = λ t. none }

-- Every call of malloc gets 64 KB further on; there is no backtrace.
abbrev pub os : Platform
os = record {
  malloc = λ calls size. 65536 * (1 + length calls);
  realloc = λ calls ptr size. 65536 * (1 + length calls);
  settle = λ calls m. m;
  backtrace = λ calls depth. [];
  clock = λ calls. length calls;
  thread_id = 7;
  rng_address = 64;
  doubles = no_doubles;
  linker = no_linker;
  text_at = λ a. [];
  general = 16;
  malloc_tag = 32;
  calloc_tag = 48;
  aligned_alloc_tag = 64;
}

-- A state right after `initialize` with the default configuration.
abbrev pub fresh_state : State
fresh_state = record {
  config = default_config 16;
  initialized = true;
  alloc_counter = 1;
  stats = zero_stats;
  tracker = empty_tracker;
  free_hist = new_histogram;
  rules = [];
  provider_initialized = false;
  symbol_cache = [];
  exit_hooks = 0;
  memory = λ q. 0;
  calls = [];
  alerts = [];
  alarms = [];
  depth = pos 0;
  scope_tag = 0;
  sampler = record { rng_state = 0; bytes_until_sample = pos 0 };
}

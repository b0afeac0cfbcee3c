-- ===== src/Types.antt =====
-- include/memsentry/types.hpp and include/memsentry/config.hpp: the constants, the enumerations
-- and the plain structs. A pointer is a number, and nullptr is 0; a std::string is the list of its
-- bytes; a `const char*` tag is the address of its text.
use Prim.Native.Char.{code}
use Prim.Native.String.{String}
use mem_sentry.Base.{ℕ, Bool, true, false, ◌&&◌, ◌==◌, List, [], ◌∷◌}

abbrev pub canary_header_magic : ℕ
canary_header_magic = 0xDEADBEEFCAFEBABE

abbrev pub canary_footer_magic : ℕ
canary_footer_magic = 0xBAADF00D5EADC0DE

abbrev pub canary_freed_magic : ℕ
canary_freed_magic = 0xDEADDEADDEADDEAD

pub data ReportFormat : Type 0 where
  console_ansi json html : ReportFormat

pub data CorruptionType : Type 0 where
  intact : CorruptionType
  header_corrupted : CorruptionType
  footer_corrupted : CorruptionType
  double_free : CorruptionType
  use_after_free : CorruptionType
  untracked_pointer : CorruptionType

abbrev pub Text : Type 0
Text = List ℕ

-- The bytes of a literal in ASCII.
abbrev pub codes : String → Text
codes String.[] = []
codes (String.◌∷◌ c s) = code c ∷ codes s

-- std::string's ==.
abbrev pub same_text : Text → Text → Bool
same_text [] [] = true
same_text [] (d ∷ ds) = false
same_text (c ∷ cs) [] = false
same_text (c ∷ cs) (d ∷ ds) = c == d && same_text cs ds

pub record StackFrame : Type 0 where
  pub address : ℕ
  pub symbol_name : Text
  pub file_name : Text
  pub line_number : ℕ

pub record AllocationRecord : Type 0 where
  pub allocation_id : ℕ
  pub user_ptr : ℕ
  pub raw_ptr : ℕ
  pub requested_size : ℕ
  pub total_size : ℕ
  pub alignment : ℕ
  pub thread_id : ℕ
  pub tag : ℕ
  pub timestamp : ℕ
  pub callstack : List ℕ
  pub frame_count : ℕ

-- `on_limit_exceeded` is a function pointer; whether it is set is all that the library reads of it
-- before the call.
pub record Config : Type 0 where
  pub enable_stacktrace : Bool
  pub max_stack_depth : ℕ
  pub stack_skip_frames : ℕ
  pub enable_canary : Bool
  pub canary_footer_size : ℕ
  pub alignment : ℕ
  pub default_tag : ℕ
  pub auto_report_on_exit : Bool
  pub exit_with_code_on_leak : Bool
  pub report_format : ReportFormat
  pub export_path : Text
  pub enable_flamegraph : Bool
  pub sampling_rate_bytes : ℕ
  pub sampling_percentage : ℕ
  pub sample_every_n : ℕ
  pub max_heap_bytes : ℕ
  pub on_limit_exceeded : Bool

-- The default member initialisers, given the address of the literal "General".
abbrev pub default_config : ℕ → Config
default_config general = record {
  enable_stacktrace = true;
  max_stack_depth = 32;
  stack_skip_frames = 3;
  enable_canary = true;
  canary_footer_size = 16;
  alignment = 16;
  default_tag = general;
  auto_report_on_exit = false;
  exit_with_code_on_leak = false;
  report_format = console_ansi;
  export_path = [];
  enable_flamegraph = true;
  sampling_rate_bytes = 0;
  sampling_percentage = 100;
  sample_every_n = 1;
  max_heap_bytes = 0;
  on_limit_exceeded = false;
}

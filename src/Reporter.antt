-- ===== src/Reporter.antt =====
-- src/reporter.cpp: what the reporters share. A text is built up from its parts, in the order in
-- which they are written to the stream.
pub mod Json
pub mod Console
pub mod Page
pub mod Html
use mem_sentry.Base.{ℕ, ◌*◌, ◌+◌, List, [], ◌∷◌, ◌++◌, ltb, ◌==◌, if◌then◌else◌}
use mem_sentry.Types.{Text, codes, AllocationRecord}
use mem_sentry.Stats.{MemoryStats}
use mem_sentry.Sampling.{Double, Doubles}
use mem_sentry.StackTrace.{Linker}
use mem_sentry.Printing.{Printer, decimal}

-- What the reporters take from elsewhere: the C string at an address, the linker, and doubles.
pub record Source : Type 0 where
  pub text_at : ℕ → Text
  pub linker : Linker
  pub doubles : Doubles
  pub printer : Printer

-- `rec.tag ? rec.tag : "General"`
abbrev pub tag_text : Source → AllocationRecord → Text
tag_text from rec = if rec.tag == 0 then codes "General" else from.text_at rec.tag

unfoldable pub frag_ratio : Doubles → MemoryStats → Double
frag_ratio fp stats =
    if ltb 0 stats.peak_allocated_bytes
    then fp.sub fp.one (
        fp.div (fp.of_uint64 stats.current_allocated_bytes)
          (fp.of_uint64 stats.peak_allocated_bytes))
    else fp.zero

-- A size in bytes, or in KB, MB or GB with two decimals.
unfoldable pub format_bytes : Doubles → Printer → ℕ → Text
format_bytes fp out bytes =
    let in_units : ℕ → Text =
      λ unit. out.fixed 2 (fp.div (fp.of_uint64 bytes) (fp.of_uint64 unit)) in
    if ltb bytes 1024
    then decimal bytes ++ codes " B"
    else if ltb bytes (1024 * 1024)
    then in_units 1024 ++ codes " KB"
    else if ltb bytes (1024 * 1024 * 1024)
    then in_units (1024 * 1024) ++ codes " MB"
    else in_units (1024 * 1024 * 1024) ++ codes " GB"

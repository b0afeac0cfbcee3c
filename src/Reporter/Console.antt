-- ===== src/Reporter/Console.antt =====
-- `ConsoleReporter` of src/reporter.cpp.
use mem_sentry.Base.{ℕ, suc, ◌+◌, List, [], ◌∷◌, ◌++◌, ltb, ◌==◌, if◌then◌else◌, length}
use mem_sentry.Base.Int.{ℤ, pos, negsuc}
use mem_sentry.Types.{
  Text, codes, StackFrame, AllocationRecord, CorruptionType, intact, header_corrupted,
  footer_corrupted, double_free, use_after_free, untracked_pointer,
}
use mem_sentry.Stats.{MemoryStats}
use mem_sentry.Snapshot.{SnapshotDiff, new_leaked_bytes}
use mem_sentry.StackTrace.{SymbolCache, resolve}
use mem_sentry.Suppression.{is_empty}
use mem_sentry.Printing.{write, decimal, hexadecimal, signed}
use mem_sentry.Reporter.{Source, tag_text, frag_ratio, format_bytes}

-- std::setw(2): a digit alone gets a space before it.
abbrev pub setw_2 : Text → Text
setw_2 [] = codes "  "
setw_2 (c ∷ []) = 32 ∷ c ∷ []
setw_2 (c ∷ d ∷ t) = c ∷ d ∷ t

abbrev pub thick_rule : Text
thick_rule =
    codes "================================================================================"

abbrev pub thin_rule : Text
thin_rule =
    codes "--------------------------------------------------------------------------------\n"

module _ (from : Source) where
  abbrev bytes_text : ℕ → Text
  bytes_text = format_bytes from.doubles from.printer

  unfoldable pub print_summary : MemoryStats → ℕ → ℕ → Text
  print_summary stats leak_count leak_bytes =
      let fp = from.doubles in
      write (
        (codes "\n\u{1b}[1;36m" ++ thick_rule ++ codes "\u{1b}[0m\n")
        ∷ codes
            "\u{1b}[1;37m                             MEMSENTRY AUDIT SUMMARY                            \u{1b}[0m\n"
        ∷ (codes "\u{1b}[1;36m" ++ thick_rule ++ codes "\u{1b}[0m\n")
        ∷ (if leak_count == 0
            then codes
                "\u{1b}[1;32m [STATUS] ALL HEAP BLOCKS FREED. ZERO LEAKS DETECTED.\u{1b}[0m\n"
            else codes "\u{1b}[1;31m [STATUS] MEMORY LEAKS DETECTED: "
              ++ decimal leak_count
              ++ codes " block(s) unreleased ("
              ++ bytes_text leak_bytes
              ++ codes ")\u{1b}[0m\n")
        ∷ thin_rule
        ∷ (codes " Total Allocations   : "
            ++ decimal stats.total_allocation_count
            ++ codes " ("
            ++ bytes_text stats.total_allocated_bytes
            ++ codes ")\n")
        ∷ (codes " Total Deallocations : "
            ++ decimal stats.total_free_count
            ++ codes " ("
            ++ bytes_text stats.total_freed_bytes
            ++ codes ")\n")
        ∷ (codes " Peak Heap Usage     : " ++ bytes_text stats.peak_allocated_bytes ++ codes "\n")
        ∷ (codes " Active Heap Usage   : "
            ++ bytes_text stats.current_allocated_bytes
            ++ codes "\n")
        ∷ (codes " Heap Frag. Ratio    : "
            ++ (from.printer).fixed 1 (fp.mul (frag_ratio fp stats) (fp.of_uint64 100))
            ++ codes " %\n")
        ∷ (codes "\u{1b}[1;36m" ++ thick_rule ++ codes "\u{1b}[0m\n\n")
        ∷ [])

  unfoldable pub leak_frame : ℕ → StackFrame → Text
  leak_frame f frame =
      codes "    #"
      ++ setw_2 (decimal f)
      ++ codes " "
      ++ frame.symbol_name
      ++ (if is_empty frame.file_name
          then []
          else codes " (" ++ frame.file_name ++ codes ":" ++ decimal frame.line_number ++ codes ")")
      ++ codes "\n"

  -- The loop over the frames, from index f on.
  unfoldable pub leak_frames : ℕ → List StackFrame → Text
  leak_frames f [] = []
  leak_frames f (frame ∷ frames) = leak_frame f frame ++ leak_frames (suc f) frames

  unfoldable pub leak_line : ℕ → AllocationRecord → Text
  leak_line i rec = write (
      (codes "\u{1b}[1;33m[Leak #" ++ decimal (i + 1) ++ codes "]\u{1b}[0m ID: ")
      ∷ (decimal rec.allocation_id ++ codes " | Size: \u{1b}[1;37m")
      ∷ (decimal rec.requested_size ++ codes " bytes\u{1b}[0m")
      ∷ (codes " | Addr: 0x" ++ hexadecimal rec.user_ptr ++ codes " | Tag: [")
      ∷ (tag_text from rec ++ codes "]")
      ∷ (codes " | Align: "
          ++ decimal rec.alignment
          ++ codes " | Thread: "
          ++ decimal rec.thread_id
          ++ codes "\n")
      ∷ [])

  -- The loop over the leaks, from index i on.
  unfoldable pub leak_lines : ℕ → List AllocationRecord → SymbolCache → Text × SymbolCache
  leak_lines i [] cache = ([], cache)
  leak_lines i (rec ∷ recs) cache =
      let resolved : List StackFrame × SymbolCache =
        if ltb 0 rec.frame_count
        then resolve from.linker rec.callstack rec.frame_count cache
        else ([], cache) in
      let rest = leak_lines (suc i) recs resolved.1 in
      (leak_line i rec ++ (leak_frames 0 resolved.0 ++ (thin_rule ++ rest.0)), rest.1)

  unfoldable pub print_leaks : List AllocationRecord → SymbolCache → Text × SymbolCache
  print_leaks leaks cache =
      let lines = leak_lines 0 leaks cache in
      if is_empty leaks
      then ([], cache)
      else (codes "\u{1b}[1;31mDETAILED LEAK REPORT:\u{1b}[0m\n" ++ (thin_rule ++ lines.0), lines.1)

  abbrev plus : ℤ → Text
  plus (pos n) = codes "+"
  plus (negsuc n) = []

  unfoldable pub print_diff : SnapshotDiff → Text
  print_diff diff = write (
      (codes "\n\u{1b}[1;36m" ++ thick_rule ++ codes "\u{1b}[0m\n")
      ∷ (codes "\u{1b}[1;37m                     SNAPSHOT DIFF: ["
          ++ diff.before_label
          ++ codes "] -> ["
          ++ diff.after_label
          ++ codes "]\u{1b}[0m\n")
      ∷ (codes "\u{1b}[1;36m" ++ thick_rule ++ codes "\u{1b}[0m\n")
      ∷ (codes " Net Memory Delta    : "
          ++ plus diff.net_bytes_delta
          ++ signed diff.net_bytes_delta
          ++ codes " bytes\n")
      ∷ (codes " Net Alloc Delta     : "
          ++ plus diff.net_allocations_delta
          ++ signed diff.net_allocations_delta
          ++ codes " blocks\n")
      ∷ (codes " Newly Leaked Blocks : "
          ++ decimal (length diff.new_allocations)
          ++ codes " ("
          ++ bytes_text (new_leaked_bytes diff)
          ++ codes ")\n")
      ∷ (codes " Persistent Blocks   : "
          ++ decimal (length diff.persistent_allocations)
          ++ codes "\n")
      ∷ (codes " Freed During Window : " ++ decimal (length diff.freed_allocations) ++ codes "\n")
      ∷ (codes "\u{1b}[1;36m" ++ thick_rule ++ codes "\u{1b}[0m\n")
      ∷ [])

-- The reason in an alert.
unfoldable pub reason : CorruptionType → Text
reason header_corrupted = codes "Buffer underrun / Block header magic overwritten\n"
reason footer_corrupted = codes "Buffer overrun / Red-zone canary overwritten\n"
reason double_free = codes "Double free detected\n"
reason use_after_free = codes "Use after free detected\n"
reason untracked_pointer = codes "Freeing pointer never allocated by allocator\n"
reason intact = codes "Unknown corruption\n"

unfoldable pub print_corruption_alert : ℕ → CorruptionType → Text
unfolding reason
print_corruption_alert ptr corruption = write (
    codes "\n\u{1b}[1;41;37m [FATAL ERROR] MEMORY CORRUPTION DETECTED! \u{1b}[0m\n"
    ∷ (codes " Pointer : 0x" ++ hexadecimal ptr ++ codes "\n")
    ∷ codes " Reason  : "
    ∷ reason corruption
    ∷ (codes "\u{1b}[1;31m" ++ thick_rule ++ codes "\u{1b}[0m\n")
    ∷ [])

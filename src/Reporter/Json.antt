-- ===== src/Reporter/Json.antt =====
-- `JsonReporter::serialize` and `JsonReporter::write_file` of src/reporter.cpp.
pub mod Lines
pub mod Document
use mem_sentry.Base.{
  ℕ, zero, suc, ◌+◌, Bool, true, false, not, List, [], ◌∷◌, ◌++◌, Option, none, some, ltb, ◌==◌,
  if◌then◌else◌, length,
}
use mem_sentry.Types.{Text, codes, StackFrame, AllocationRecord}
use mem_sentry.Stats.{MemoryStats}
use mem_sentry.StackTrace.{SymbolCache, resolve}
use mem_sentry.Snapshot.{sum_sizes}
use mem_sentry.Printing.{write, decimal, hexadecimal}
use mem_sentry.Escape.{json_escape}
use mem_sentry.Reporter.{Source, tag_text, frag_ratio}

-- `i + 1 < size ? "," : ""`, where more entries follow exactly if the list goes on.
abbrev pub comma {ℓ} : {A : Type ℓ} → List A → Text
comma [] = []
comma (x ∷ xs) = codes ","

unfoldable pub frame_json : ℕ → StackFrame → Text
frame_json f frame = write (
    codes "        {\n"
    ∷ (codes "          \"frame\": " ++ decimal f ++ codes ",\n")
    ∷ (codes "          \"symbol\": \"" ++ json_escape frame.symbol_name ++ codes "\",\n")
    ∷ (codes "          \"file\": \"" ++ json_escape frame.file_name ++ codes "\",\n")
    ∷ (codes "          \"line\": " ++ decimal frame.line_number ++ codes "\n")
    ∷ codes "        }"
    ∷ [])

-- The loop over the frames, from index f on.
unfoldable pub frames_json : ℕ → List StackFrame → Text
frames_json f [] = []
frames_json f (frame ∷ frames) =
    frame_json f frame ++ (comma frames ++ (codes "\n" ++ frames_json (suc f) frames))

module _ (from : Source) where
  -- The fields of a record before its frames.
  unfoldable pub record_json : AllocationRecord → Text
  record_json rec = write (
      codes "    {\n"
      ∷ (codes "      \"id\": " ++ decimal rec.allocation_id ++ codes ",\n")
      ∷ (codes "      \"address\": \"0x" ++ hexadecimal rec.user_ptr ++ codes "\",\n")
      ∷ (codes "      \"requested_size\": " ++ decimal rec.requested_size ++ codes ",\n")
      ∷ (codes "      \"total_size\": " ++ decimal rec.total_size ++ codes ",\n")
      ∷ (codes "      \"alignment\": " ++ decimal rec.alignment ++ codes ",\n")
      ∷ (codes "      \"thread_id\": " ++ decimal rec.thread_id ++ codes ",\n")
      ∷ (codes "      \"tag\": \"" ++ json_escape (tag_text from rec) ++ codes "\",\n")
      ∷ codes "      \"stacktrace\": [\n"
      ∷ [])

  -- The loop over the records. Frames are resolved only if there are any.
  unfoldable pub records_json : List AllocationRecord → SymbolCache → Text × SymbolCache
  records_json [] cache = ([], cache)
  records_json (rec ∷ recs) cache =
      let resolved : List StackFrame × SymbolCache =
        if ltb 0 rec.frame_count
        then resolve from.linker rec.callstack rec.frame_count cache
        else ([], cache) in
      let rest = records_json recs resolved.1 in
      (
        record_json rec
            ++ (frames_json 0 resolved.0
                ++ (codes "      ]\n"
                    ++ (codes "    }" ++ (comma recs ++ (codes "\n" ++ rest.0))))),
        rest.1,
      )

  unfoldable pub summary_json : MemoryStats → List AllocationRecord → Text
  summary_json stats recs = write (
      codes "{\n"
      ∷ codes "  \"summary\": {\n"
      ∷ (codes "    \"total_allocated_bytes\": "
          ++ decimal stats.total_allocated_bytes
          ++ codes ",\n")
      ∷ (codes "    \"total_freed_bytes\": " ++ decimal stats.total_freed_bytes ++ codes ",\n")
      ∷ (codes "    \"current_allocated_bytes\": "
          ++ decimal stats.current_allocated_bytes
          ++ codes ",\n")
      ∷ (codes "    \"peak_allocated_bytes\": "
          ++ decimal stats.peak_allocated_bytes
          ++ codes ",\n")
      ∷ (codes "    \"external_fragmentation_ratio\": "
          ++ (from.printer).general (frag_ratio from.doubles stats)
          ++ codes ",\n")
      ∷ (codes "    \"total_allocations\": " ++ decimal stats.total_allocation_count ++ codes ",\n")
      ∷ (codes "    \"total_frees\": " ++ decimal stats.total_free_count ++ codes ",\n")
      ∷ (codes "    \"leak_count\": " ++ decimal (length recs) ++ codes ",\n")
      ∷ (codes "    \"leak_bytes\": " ++ decimal (sum_sizes 0 recs) ++ codes "\n")
      ∷ codes "  },\n"
      ∷ codes "  \"leaks\": [\n"
      ∷ [])

  unfoldable pub serialize : MemoryStats → List AllocationRecord → SymbolCache → Text × SymbolCache
  serialize stats recs cache =
      let leaks = records_json recs cache in
      (summary_json stats recs ++ (leaks.0 ++ (codes "  ]\n" ++ codes "}\n")), leaks.1)

  -- `opened` is whether the file could be opened; the text is what is written to it.
  unfoldable pub write_file :
      Bool → MemoryStats → List AllocationRecord → SymbolCache → (Bool × Option Text) × SymbolCache
  write_file opened stats recs cache =
      let text = serialize stats recs cache in
      if not opened then ((false, none), cache) else ((true, some text.0), text.1)

-- ===== src/Flamegraph/Folded.antt =====
-- `FlamegraphGenerator::generate_folded_stacks` of include/memsentry/profiler/flamegraph.hpp: a line
-- for each record, with its frames from the outermost on and its bytes.
pub mod Reader
pub mod Stacks
use mem_sentry.Base.{Bool, true, false, List, [], ◌∷◌, ◌++◌, ◌==◌, if◌then◌else◌}
use mem_sentry.Types.{Text, codes, StackFrame, AllocationRecord}
use mem_sentry.StackTrace.{Linker, SymbolCache, resolve}
use mem_sentry.Printing.{decimal}
use mem_sentry.Flamegraph.{symbol_of, reverse_onto}

-- The loop over the frames, the outermost first.
unfoldable pub folded_frames : Bool → List StackFrame → Text
folded_frames first [] = []
folded_frames first (frame ∷ frames) =
    (if first then [] else codes ";") ++ (symbol_of frame ++ folded_frames false frames)

-- A line, with its end.
unfoldable pub folded_line : Linker → AllocationRecord → SymbolCache → Text × SymbolCache
folded_line linker rec cache =
    let resolved = resolve linker rec.callstack rec.frame_count cache in
    if rec.frame_count == 0
    then (codes "[unknown] " ++ (decimal rec.requested_size ++ codes "\n"), cache)
    else (
      folded_frames true (reverse_onto resolved.0 [])
          ++ (codes " " ++ (decimal rec.requested_size ++ codes "\n")),
      resolved.1,
    )

unfoldable pub generate_folded_stacks :
    Linker → List AllocationRecord → SymbolCache → Text × SymbolCache
generate_folded_stacks linker [] cache = ([], cache)
generate_folded_stacks linker (rec ∷ recs) cache =
    let line = folded_line linker rec cache in
    let rest = generate_folded_stacks linker recs line.1 in (line.0 ++ rest.0, rest.1)

-- ===== src/Reporter/Html.antt =====
-- `HtmlReporter` of src/reporter.cpp.
pub mod Nesting
use mem_sentry.Base.{
  ℕ, suc, Bool, true, false, not, List, [], ◌∷◌, ◌++◌, Option, none, some, ltb, if◌then◌else◌,
  length,
}
use mem_sentry.Types.{Text, codes, StackFrame, AllocationRecord}
use mem_sentry.Stats.{MemoryStats}
use mem_sentry.Snapshot.{sum_sizes}
use mem_sentry.Histogram.{SizeBucket, AllocationHistogram, new_histogram, feed}
use mem_sentry.StackTrace.{SymbolCache, resolve}
use mem_sentry.Suppression.{is_empty}
use mem_sentry.Printing.{write, decimal, hexadecimal}
use mem_sentry.Flamegraph.{build_tree}
use mem_sentry.Flamegraph.Svg.{generate_svg}
use mem_sentry.Reporter.Page.{page_head, page_title, table_head, page_script}
use mem_sentry.Reporter.{Source, tag_text, frag_ratio, format_bytes}

-- The largest count, and at least 1: the loop over the buckets from the count so far.
unfoldable pub max_bucket_count : ℕ → AllocationHistogram → ℕ
max_bucket_count so_far [] = so_far
max_bucket_count so_far (b ∷ bs) =
    max_bucket_count (if ltb so_far b.count then b.count else so_far) bs

-- Where the function of a frame is, if that is known.
unfoldable pub stack_loc : StackFrame → Text
stack_loc frame =
    if is_empty frame.file_name
    then []
    else write (
        codes " at <span class=\"stack-loc\">"
        ∷ frame.file_name
        ∷ codes ":"
        ∷ decimal frame.line_number
        ∷ codes "</span>"
        ∷ [])

-- A frame in the trace of a record.
unfoldable pub frame_html : ℕ → StackFrame → Text
frame_html f frame = write (
    codes "      <div class=\"stack-line\">#"
    ∷ decimal f
    ∷ codes " <span class=\"stack-sym\">"
    ∷ frame.symbol_name
    ∷ codes "</span>"
    ∷ stack_loc frame
    ∷ codes "</div>\n"
    ∷ [])

-- The loop over the frames, from index f on.
unfoldable pub frames_html : ℕ → List StackFrame → Text
frames_html f [] = []
frames_html f (frame ∷ frames) = frame_html f frame ++ frames_html (suc f) frames

-- Whether there are leaks.
unfoldable pub badge : Bool → Text
badge true = codes "<span class=\"badge badge-clean\">CLEAN: ZERO LEAKS</span>"
badge false = codes "<span class=\"badge badge-leak\">LEAKS DETECTED</span>"

module _ (from : Source) where
  abbrev bytes_html : ℕ → Text
  bytes_html = format_bytes from.doubles from.printer

  -- The row of a record, up to its trace.
  unfoldable pub row_html : ℕ → AllocationRecord → Text
  row_html i rec = write (
      codes "    <tr onclick=\"toggleTrace("
      ∷ decimal i
      ∷ codes ")\">\n"
      ∷ codes "      <td>#"
      ∷ decimal rec.allocation_id
      ∷ codes "</td>\n"
      ∷ codes "      <td><code>0x"
      ∷ hexadecimal rec.user_ptr
      ∷ codes "</code></td>\n"
      ∷ codes "      <td><strong>"
      ∷ decimal rec.requested_size
      ∷ codes " B</strong></td>\n"
      ∷ codes "      <td>"
      ∷ decimal rec.alignment
      ∷ codes " B</td>\n"
      ∷ codes "      <td><span class=\"tag-pill\">"
      ∷ tag_text from rec
      ∷ codes "</span></td>\n"
      ∷ codes "      <td>"
      ∷ decimal rec.thread_id
      ∷ codes "</td>\n"
      ∷ codes "      <td>"
      ∷ decimal rec.frame_count
      ∷ codes " frames (click to expand)</td>\n"
      ∷ codes "    </tr>\n"
      ∷ codes "    <tr id=\"trace-"
      ∷ decimal i
      ∷ codes "\" class=\"stacktrace\"><td colspan=\"7\">\n"
      ∷ [])

  -- The loop over the records, from index i on.
  unfoldable pub rows_html : ℕ → List AllocationRecord → SymbolCache → Text × SymbolCache
  rows_html i [] cache = ([], cache)
  rows_html i (rec ∷ recs) cache =
      let resolved = resolve from.linker rec.callstack rec.frame_count cache in
      let trace : Text × SymbolCache =
        if ltb 0 rec.frame_count
        then (frames_html 0 resolved.0, resolved.1)
        else (codes "      <div>(No stack frames captured)</div>\n", cache) in
      let rest = rows_html (suc i) recs trace.1 in
      (row_html i rec ++ (trace.0 ++ (codes "    </td></tr>\n" ++ rest.0)), rest.1)

  -- The bar of a bucket. The stream still has the format of the fragmentation above it.
  unfoldable pub bucket_html : ℕ → SizeBucket → Text
  bucket_html most b =
      let fp = from.doubles in
      let pct = fp.mul (fp.div (fp.of_uint64 b.count) (fp.of_uint64 most)) (fp.of_uint64 100) in
      write (
        codes "  <div class=\"histogram-bar\">\n"
        ∷ codes "    <div class=\"histogram-label\">"
        ∷ b.label
        ∷ codes "</div>\n"
        ∷ codes "    <div class=\"histogram-track\"><div class=\"histogram-fill\" style=\"width:"
        ∷ (from.printer).fixed 1 pct
        ∷ codes "%\"></div></div>\n"
        ∷ codes "    <div class=\"histogram-val\">"
        ∷ decimal b.count
        ∷ codes " ("
        ∷ bytes_html b.total_bytes
        ∷ codes ")</div>\n"
        ∷ codes "  </div>\n"
        ∷ [])

  unfoldable pub buckets_html : ℕ → AllocationHistogram → Text
  buckets_html most [] = []
  buckets_html most (b ∷ bs) = bucket_html most b ++ buckets_html most bs

  -- The badge and the cards.
  unfoldable pub summary_html : MemoryStats → List AllocationRecord → Text
  summary_html stats recs =
      let fp = from.doubles in
      write (
        codes "  <div>"
        ∷ badge (is_empty recs)
        ∷ codes "</div>\n"
        ∷ codes "</header>\n"
        ∷ codes "<div class=\"grid\">\n"
        ∷ codes
            "  <div class=\"card\"><div class=\"card-title\">Total Leaked</div><div class=\"card-value\" style=\"color:#f85149;\">"
        ∷ bytes_html (sum_sizes 0 recs)
        ∷ codes "</div></div>\n"
        ∷ codes
            "  <div class=\"card\"><div class=\"card-title\">Active Leaks</div><div class=\"card-value\" style=\"color:#f85149;\">"
        ∷ decimal (length recs)
        ∷ codes "</div></div>\n"
        ∷ codes
            "  <div class=\"card\"><div class=\"card-title\">Peak Heap</div><div class=\"card-value\">"
        ∷ bytes_html stats.peak_allocated_bytes
        ∷ codes "</div></div>\n"
        ∷ codes
            "  <div class=\"card\"><div class=\"card-title\">External Frag.</div><div class=\"card-value\">"
        ∷ (from.printer).fixed 1 (fp.mul (frag_ratio fp stats) (fp.of_uint64 100))
        ∷ codes " %</div></div>\n"
        ∷ codes
            "  <div class=\"card\"><div class=\"card-title\">Lifetime Allocations</div><div class=\"card-value\">"
        ∷ decimal stats.total_allocation_count
        ∷ codes "</div></div>\n"
        ∷ codes
            "  <div class=\"card\"><div class=\"card-title\">Lifetime Frees</div><div class=\"card-value\">"
        ∷ decimal stats.total_free_count
        ∷ codes "</div></div>\n"
        ∷ codes "</div>\n"
        ∷ [])

  -- The flamegraph is drawn before the rows are, and fills the symbol cache.
  unfoldable pub generate : MemoryStats → List AllocationRecord → SymbolCache → Text × SymbolCache
  generate stats recs cache =
      let fp = from.doubles in
      let hist = feed recs new_histogram in
      let tree = build_tree from.linker recs cache in
      let svg = generate_svg fp from.printer tree.0 (fp.of_uint64 1000) (fp.of_uint64 22) in
      let rows = rows_html 0 recs tree.1 in
      (
        write (
            page_head
            ∷ page_title
            ∷ summary_html stats recs
            ∷ codes "<div class=\"section\">\n"
            ∷ codes "  <h2>Live Memory Flamegraph</h2>\n"
            ∷ codes "  <div class=\"flamegraph-container\">\n"
            ∷ svg
            ∷ codes "  </div>\n"
            ∷ codes "</div>\n"
            ∷ codes "<div class=\"section\">\n"
            ∷ codes "  <h2>Allocation Size Distribution</h2>\n"
            ∷ buckets_html (max_bucket_count 1 hist) hist
            ∷ codes "</div>\n"
            ∷ codes "<div class=\"section\">\n"
            ∷ codes "  <h2>Unreleased Memory Blocks ("
            ∷ decimal (length recs)
            ∷ codes ")</h2>\n"
            ∷ table_head
            ∷ rows.0
            ∷ codes "    </tbody>\n  </table>\n</div>\n"
            ∷ page_script
            ∷ []),
        rows.1,
      )

  -- `opened` is whether the file could be opened; the text is what is written to it.
  unfoldable pub write_page :
      Bool → MemoryStats → List AllocationRecord → SymbolCache → (Bool × Option Text) × SymbolCache
  write_page opened stats recs cache =
      let text = generate stats recs cache in
      if not opened then ((false, none), cache) else ((true, some text.0), text.1)

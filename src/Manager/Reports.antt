-- ===== src/Manager/Reports.antt =====
-- The other reports of the Manager in src/memsentry.cpp: the console's, the HTML page, and the SVG of
-- the flamegraph. Whether a file could be opened is a parameter, and what is written to it a result.
use mem_sentry.Base.{
  ◌≡◌, refl, keep, [], All, Bool, true, false, not, ◌++◌, Option, none, some, if◌then◌else◌, length,
}
use mem_sentry.Types.{Text}
use mem_sentry.Tracker
use mem_sentry.Sampling.{Double}
use mem_sentry.Printing.{Printer}
use mem_sentry.Snapshot.{sum_sizes}
use mem_sentry.Flamegraph.{build_tree}
use mem_sentry.Flamegraph.Svg.{generate_svg}
use mem_sentry.Markup.{IsNested, PrintsInert}
use mem_sentry.Flamegraph.Svg.Nesting.{generate_svg-content}
use mem_sentry.Flamegraph.Svg.Titles.{IsInertFrame, build_tree-AreTitles}
use mem_sentry.StackTrace.Resolve.{IsCoherent}
use mem_sentry.Suppression.Rules.{frames_of}
use mem_sentry.Reporter.Console.{print_summary, print_leaks}
use mem_sentry.Reporter.Html.{generate, write_page}
use mem_sentry.Reporter.Html.Nesting.Whole.{IsShown, generate-IsNested}
use mem_sentry.Manager.Leaks.Partition.{matches, unsuppressed-keep, unsuppressed-IsCoherent}
use mem_sentry.Manager.State.{Platform, State, guarded}
use mem_sentry.Manager.Leaks.{unsuppressed}
use mem_sentry.Manager.Export.{report_source}

module _ (os : Platform) (out : Printer) where
  unfoldable pub dump_leaks : State → Text × State
  dump_leaks = guarded λ s.
      let from = report_source os out in
      let leaks = unsuppressed os s.rules (Tracker.snapshot_all s.tracker) s.symbol_cache in
      let summary = print_summary from s.stats (length leaks.0) (sum_sizes 0 leaks.0) in
      let listed = print_leaks from leaks.0 leaks.1 in
      (summary ++ listed.0, record s { symbol_cache = listed.1 })

  unfoldable pub export_html : Bool → State → (Bool × Option Text) × State
  export_html opened = guarded λ s.
      let leaks = unsuppressed os s.rules (Tracker.snapshot_all s.tracker) s.symbol_cache in
      let r = write_page (report_source os out) opened s.stats leaks.0 leaks.1 in
      (r.0, record s { symbol_cache = r.1 })

  -- All tracked records, the suppressed ones too.
  unfoldable pub get_flamegraph_svg : Double → State → Text × State
  get_flamegraph_svg width = guarded λ s.
      let fp = os.doubles in
      let tree = build_tree os.linker (Tracker.snapshot_all s.tracker) s.symbol_cache in
      (generate_svg fp out tree.0 width (fp.of_uint64 22), record s { symbol_cache = tree.1 })

  -- The text is drawn before the file is opened.
  unfoldable pub export_flamegraph_svg : Bool → Double → State → (Bool × Option Text) × State
  export_flamegraph_svg opened width s =
      let svg = get_flamegraph_svg width s in
      guarded (λ s. (if not opened then (false, none) else (true, some svg.0), s)) svg.1

-- Where numbers are printed without markup, with a coherent symbol cache, and if no frame of a
-- tracked record has markup in its symbol or file, the elements of the flamegraph's SVG are nested:
-- every start tag has its end tag, in order.
pub get_flamegraph_svg-IsNested :
    (os : Platform) (out : Printer) (width : Double) (s : State)
    → PrintsInert out
    → IsCoherent os.linker s.symbol_cache
    → All (λ r. All IsInertFrame (frames_of os.linker r)) (Tracker.snapshot_all s.tracker)
    → IsNested (get_flamegraph_svg os out width s).0
unfolding get_flamegraph_svg
get_flamegraph_svg-IsNested os out width s prints c plain =
    let recs = Tracker.snapshot_all s.tracker in
    generate_svg-content os.doubles out (build_tree os.linker recs s.symbol_cache).0 width
      ((os.doubles).of_uint64 22) [] prints
      (build_tree-AreTitles os.linker recs s.symbol_cache c plain).0

-- Where numbers are printed without markup, with a coherent symbol cache, and if no tag, symbol or
-- file of a record that no rule suppresses has markup, an export to a file that opens writes an
-- HTML page whose elements are nested, every start tag with its end tag in order; if the file does
-- not open, nothing is written and the result is false.
pub export_html_lem :
    (os : Platform) (out : Printer) (s : State)
    → PrintsInert out
    → IsCoherent os.linker s.symbol_cache
    → All
        (IsShown (report_source os out))
        (keep (λ r. not (matches os s.rules r)) (Tracker.snapshot_all s.tracker))
    → ((export_html os out true s).0.0 ≡ true)
      × ((text : Text) × ((export_html os out true s).0.1 ≡ some text) × IsNested text)
      × ((export_html os out false s).0 ≡ (false, none))
unfolding export_html write_page
export_html_lem os out s prints c shown =
    let recs = Tracker.snapshot_all s.tracker in
    let leaks = unsuppressed os s.rules recs s.symbol_cache in
    let kept = unsuppressed-keep os s.rules recs s.symbol_cache c in
    let coherent = unsuppressed-IsCoherent os s.rules recs s.symbol_cache c in
    (
      refl,
      (
        (generate (report_source os out) s.stats leaks.0 leaks.1).0,
        refl,
        generate-IsNested (report_source os out) prints s.stats leaks.0 leaks.1 coherent
            (rw kept shown),
      ),
      refl,
    )
